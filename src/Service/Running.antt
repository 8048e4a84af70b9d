-- ===== src/Service/Running.antt =====
-- The flag `_running` of ServerCore/NetService.cpp: the two starts set it, and only `Stop` clears it.
use simple_server.Prelude.{
  ℕ, zero, suc, ◌+◌, ◌≡◌, refl, ap, ◌∙◌, Bool, true, false, not, arith, if◌then◌else◌,
}
use simple_server.Service.{
  Service, Os, Callbacks, client_mode, server_mode, calling, update_session,
  create_and_register_session, connect_to, accept_round, accept_loop, run_accept_loop, stop,
  is_server,
}
use simple_server.Service.Start.{
  start_workers, init_iocp_and_workers, start_listening, start_server, start_client,
}

module _ {W : Type 0} (os : Os W) where
  -- Starting and connecting leave the flag `_running` as `StartClient` sets it.
  start_workers-running :
      (cb : Callbacks W) (n : ℕ) (v : Service W) → (start_workers os cb n v).1.running ≡ v.running
  unfolding start_workers
  start_workers-running cb zero v = refl
  start_workers-running cb (suc n) v =
      let v1 = (calling os.create_thread v).1 in
      ground (arith, start_workers-running cb n (record v1 { workers = v1.workers + 1 }))

  pub start_client-running :
      (cb : Callbacks W) (n : ℕ) (v : Service W) → (start_client os cb n v).1.running ≡ true
  unfolding start_client init_iocp_and_workers
  start_client-running cb n v =
      let v1 = record v { running = true; mode = client_mode } in
      ground
        (arith, start_workers-running cb n (record (calling os.create_port v1).1 { iocp = true }))

  pub connect_to-running :
      (cb : Callbacks W) (v : Service W) → (connect_to os cb v).1.running ≡ v.running
  unfolding connect_to create_and_register_session update_session
  connect_to-running cb v = ground arith

  start_listening-running :
      (cb : Callbacks W) (n : ℕ) (v : Service W) → (start_listening os cb n v).1.running ≡ v.running
  unfolding start_listening init_iocp_and_workers
  start_listening-running cb n v =
      let v2 = (calling os.listen_socket (calling os.bind_socket v).1).1 in
      ground
        (arith, start_workers-running cb n (record (calling os.create_port v2).1 { iocp = true }))

  pub start_server-running :
      (cb : Callbacks W) (n : ℕ) (v : Service W) → (start_server os cb n v).1.running ≡ true
  unfolding start_server
  start_server-running cb n v =
      let v0 = record v { running = true; mode = server_mode } in
      let (opened, v1) = calling os.open_socket v0 in
      ground (arith, start_listening-running cb n (record v1 { listen = opened }))

  accept_round-running :
      (cb : Callbacks W) (v : Service W) → (accept_round os cb v).running ≡ v.running
  unfolding accept_round create_and_register_session update_session
  accept_round-running cb v = ground arith

  accept_loop-running :
      (cb : Callbacks W) (n : ℕ) (v : Service W)
      → v.running ≡ true
      → ((accept_loop os cb n v).0 ≡ false) × ((accept_loop os cb n v).1.running ≡ true)
  unfolding accept_loop
  accept_loop-running cb zero v r = (ap not r, r)
  accept_loop-running cb (suc n) v r =
      let (ended, runs) =
        accept_loop-running cb n (accept_round os cb v) (accept_round-running cb v ∙ r) in
      let cont : Bool → Bool × Service W =
        λ b. elim b [ true ↦ accept_loop os cb n (accept_round os cb v) | false ↦ (true, v) ] in
      (ap (λ b. (cont b).0) r ∙ ended, ap (λ b. (cont b).1.running) r ∙ runs)

  -- A service that has been started as a server does not get out of the accept loop by itself.
  pub run_accept_loop-running :
      (cb : Callbacks W) (n : ℕ) (v : Service W)
      → v.running ≡ true
      → v.mode ≡ server_mode
      → ((run_accept_loop os cb n v).0 ≡ false) × ((run_accept_loop os cb n v).1.running ≡ true)
  unfolding run_accept_loop is_server
  run_accept_loop-running cb n v r m =
      let (ended, runs) = accept_loop-running cb n v r in
      let server : is_server v.mode ≡ true = ap is_server m in
      (ground (arith, server, ended), ground (arith, server, runs))

  start_workers-mode :
      (cb : Callbacks W) (n : ℕ) (v : Service W) → (start_workers os cb n v).1.mode ≡ v.mode
  unfolding start_workers
  start_workers-mode cb zero v = refl
  start_workers-mode cb (suc n) v =
      let v1 = (calling os.create_thread v).1 in
      ground (arith, start_workers-mode cb n (record v1 { workers = v1.workers + 1 }))

  start_listening-mode :
      (cb : Callbacks W) (n : ℕ) (v : Service W) → (start_listening os cb n v).1.mode ≡ v.mode
  unfolding start_listening init_iocp_and_workers
  start_listening-mode cb n v =
      let v2 = (calling os.listen_socket (calling os.bind_socket v).1).1 in
      ground (arith, start_workers-mode cb n (record (calling os.create_port v2).1 { iocp = true }))

  -- A start, even one that fails, makes a service that has not run a server.
  pub start_server-mode :
      (cb : Callbacks W) (n : ℕ) (v : Service W)
      → v.running ≡ false
      → (start_server os cb n v).1.mode ≡ server_mode
  unfolding start_server
  start_server-mode cb n v h =
      let v0 = record v { running = true; mode = server_mode } in
      let (opened, v1) = calling os.open_socket v0 in
      ground (arith, start_listening-mode cb n (record v1 { listen = opened }))

  -- A second `Stop` does nothing.
  pub stop_stopped : (cb : Callbacks W) (v : Service W) → v.running ≡ false → stop os cb v ≡ v
  unfolding stop
  stop_stopped cb v h = ground arith

  -- What holds where a step failed: the step `b` or what comes after it.
  pub on_failure :
      (P : Service W → Type 0) (b : Bool) (x : Service W) (r : Bool × Service W)
      → P x
      → (r.0 ≡ false → P r.1)
      → (if not b then (false, x) else r).0 ≡ false
      → P (if not b then (false, x) else r).1
  on_failure P true x r p q h = q h
  on_failure P false x r p q h = p
