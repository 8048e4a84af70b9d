-- ===== src/Service/Start.antt =====
-- `StartServer`, `StartClient` and `InitIocpAndWorkers` of ServerCore/NetService.cpp.
use simple_server.Prelude.{ℕ, zero, suc, ◌+◌, Bool, true, false, not, if◌then◌else◌}
use simple_server.Service.{Service, Os, Callbacks, server_mode, client_mode, calling}

module _ {W : Type 0} (os : Os W) (cb : Callbacks W) where
  unfoldable pub start_workers : ℕ → Service W → Bool × Service W
  start_workers zero v = (true, v)
  start_workers (suc n) v =
      let (h, v1) = calling os.create_thread v in
      let rest = start_workers n (record v1 { workers = v1.workers + 1 }) in
      if not h then (false, v1) else rest

  unfoldable pub init_iocp_and_workers : ℕ → Service W → Bool × Service W
  init_iocp_and_workers worker_count v =
      let (h, v1) = calling os.create_port v in
      if not h then (false, v1) else start_workers worker_count (record v1 { iocp = true })

  -- After `socket` has succeeded. The results of `inet_pton` and `setsockopt` are not looked at.
  unfoldable pub start_listening : ℕ → Service W → Bool × Service W
  start_listening worker_count v =
      let (bound, v1) = calling os.bind_socket v in
      if not bound
      then (false, v1)
      else (let (listening, v2) = calling os.listen_socket v1 in
          if not listening then (false, v2) else init_iocp_and_workers worker_count v2)

  unfoldable pub start_server : ℕ → Service W → Bool × Service W
  start_server worker_count v =
      if v.running
      then (false, v)
      else (let (opened, v1) =
            calling os.open_socket (record v { running = true; mode = server_mode }) in
          let v2 = record v1 { listen = opened } in
          if not opened then (false, v2) else start_listening worker_count v2)

  unfoldable pub start_client : ℕ → Service W → Bool × Service W
  start_client worker_count v =
      if v.running
      then (false, v)
      else init_iocp_and_workers worker_count (record v { running = true; mode = client_mode })
