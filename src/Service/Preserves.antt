-- ===== src/Service/Preserves.antt =====
-- An induction principle for a service (ServerCore/NetService.cpp): what its calls keep of the world and
-- of the number of sessions made so far, every reachable state has.
use simple_server.Prelude.{
  ℕ, zero, suc, ◌+◌, ◌≡◌, Bool, true, false, not, ◌||◌, Option, none, some, List, [], ◌∷◌,
  along_some, if_both, bind-some,
}
use simple_server.SendBuffer.{SendBuffer}
use simple_server.Session.{Session, new_session}
use simple_server.Session.Preserves.{
  Preserves, close-Preserves, post_recv-Preserves, enqueue_send-Preserves, complete_send-Preserves,
  complete_recv-Preserves,
}
use simple_server.Session.{start}
use simple_server.Service.{
  Net, Service, Os, Callbacks, Completion, wake_up, received, transmitted, server_mode, client_mode,
  add_session, on_net, calling, update_session, close_workers, notify_connected, session_env,
  create_and_register_session, connect_to, accept_round, close_session, close_all, stop, send_to,
  send_to_all, broadcast_buffer, worker_round, is_client,
}
use simple_server.Service.Start.{
  start_workers, init_iocp_and_workers, start_listening, start_server, start_client,
}
use simple_server.Service.Reach.{
  Step, starts_server, starts_client, connects, accepts, completes, closes, sends, broadcasts,
  stops,
}

module _ {W : Type 0} (os : Os W) (cb : Callbacks W) where
  -- `Q` is kept of the world after `b` sessions have been made.
  pub record IsKept (Q : ℕ → Net W → Type 0) : Type 0 where
    pub opening : (b : ℕ) (n : Net W) → Q b n → Q b (on_net os.open_socket n).1
    pub binding : (b : ℕ) (n : Net W) → Q b n → Q b (on_net os.bind_socket n).1
    pub listening : (b : ℕ) (n : Net W) → Q b n → Q b (on_net os.listen_socket n).1
    pub connecting : (b : ℕ) (n : Net W) → Q b n → Q b (on_net os.connect_socket n).1
    pub accepting : (b : ℕ) (n : Net W) → Q b n → Q b (on_net os.accept_socket n).1
    pub port : (b : ℕ) (n : Net W) → Q b n → Q b (on_net os.create_port n).1
    pub thread : (b : ℕ) (n : Net W) → Q b n → Q b (on_net os.create_thread n).1
    pub registering : (b id : ℕ) (n : Net W) → Q b n → Q b (on_net (os.register_socket id) n).1
    pub session : (b id : ℕ) → Preserves (session_env os cb id) (Q b)
    pub connected :
        (id : ℕ) (n : Net W) (s : Session)
        → Q id n
        → Q (id + 1) (notify_connected os cb id (add_session id n) s).0

  module _ (Q : ℕ → Net W → Type 0) (k : IsKept Q) where
    abbrev Holds : Service W → Type 0
    Holds v = Q v.next_session v.net

    abbrev HoldsAfter : Bool × Service W → Type 0
    HoldsAfter r = Holds r.1

    start_workers-Holds : (n : ℕ) (v : Service W) → Holds v → Holds (start_workers os cb n v).1
    unfolding start_workers
    start_workers-Holds zero v q = q
    start_workers-Holds (suc n) v q =
        let q1 = k.thread v.next_session v.net q in
        let v1 = (calling os.create_thread v).1 in
        if_both HoldsAfter (not (calling os.create_thread v).0) _ _ q1
          (start_workers-Holds n (record v1 { workers = v1.workers + 1 }) q1)

    init-Holds : (n : ℕ) (v : Service W) → Holds v → Holds (init_iocp_and_workers os cb n v).1
    unfolding init_iocp_and_workers
    init-Holds n v q =
        let q1 = k.port v.next_session v.net q in
        if_both HoldsAfter (not (calling os.create_port v).0) _ _ q1
          (start_workers-Holds n (record (calling os.create_port v).1 { iocp = true }) q1)

    start_listening-Holds : (n : ℕ) (v : Service W) → Holds v → Holds (start_listening os cb n v).1
    unfolding start_listening
    start_listening-Holds n v q =
        let q1 = k.binding v.next_session v.net q in
        let v1 = (calling os.bind_socket v).1 in
        let q2 = k.listening v.next_session v1.net q1 in
        if_both HoldsAfter (not (calling os.bind_socket v).0) _ _ q1 (
          if_both HoldsAfter (not (calling os.listen_socket v1).0) _ _ q2
            (init-Holds n (calling os.listen_socket v1).1 q2))

    start_server-Holds : (n : ℕ) (v : Service W) → Holds v → Holds (start_server os cb n v).1
    unfolding start_server
    start_server-Holds n v q =
        let q1 = k.opening v.next_session v.net q in
        let r = calling os.open_socket (record v { running = true; mode = server_mode }) in
        if_both HoldsAfter v.running _ _ q (
          if_both HoldsAfter (not r.0) _ _ q1
            (start_listening-Holds n (record r.1 { listen = r.0 }) q1))

    start_client-Holds : (n : ℕ) (v : Service W) → Holds v → Holds (start_client os cb n v).1
    unfolding start_client
    start_client-Holds n v q =
        if_both HoldsAfter v.running _ _ q
          (init-Holds n (record v { running = true; mode = client_mode }) q)

    create-Holds : (v : Service W) → Holds v → Holds (create_and_register_session os cb v).1
    unfolding create_and_register_session update_session start
    create-Holds v q =
        let id = v.next_session in
        let r = on_net (os.register_socket id) v.net in
        let q1 = k.registering id id v.net q in
        let t = notify_connected os cb id (add_session id r.1) new_session in
        if_both HoldsAfter (not r.0) _ _ q1 (
          post_recv-Preserves (session_env os cb id) (Q (id + 1)) (k.session (id + 1) id) t.0 t.1
            (k.connected id r.1 new_session q1))

    connect_to-Holds : (v : Service W) → Holds v → Holds (connect_to os cb v).1
    unfolding connect_to
    connect_to-Holds v q =
        let q1 = k.opening v.next_session v.net q in
        let v1 = (calling os.open_socket v).1 in
        let q2 = k.connecting v.next_session v1.net q1 in
        if_both HoldsAfter (not (is_client v.mode) || not v.running) _ _ q (
          if_both HoldsAfter (not (calling os.open_socket v).0) _ _ q1 (
            if_both HoldsAfter (not (calling os.connect_socket v1).0) _ _ q2
              (create-Holds (calling os.connect_socket v1).1 q2)))

    accept_round-Holds : (v : Service W) → Holds v → Holds (accept_round os cb v)
    unfolding accept_round
    accept_round-Holds v q =
        let q1 = k.accepting v.next_session v.net q in
        if_both Holds (not (calling os.accept_socket v).0) _ _ q1
          (create-Holds (calling os.accept_socket v).1 q1)

    close_session-Holds : (id : ℕ) (v : Service W) → Holds v → Holds (close_session os cb id v)
    unfolding close_session update_session
    close_session-Holds id v q =
        close-Preserves (session_env os cb id) (Q v.next_session) (k.session v.next_session id)
          v.net (v.objects id) q

    close_all-Holds : (ids : List ℕ) (v : Service W) → Holds v → Holds (close_all os cb ids v)
    unfolding close_all
    close_all-Holds [] v q = q
    close_all-Holds (id ∷ ids) v q =
        close_all-Holds ids (close_session os cb id v) (close_session-Holds id v q)

    stop-Holds : (v : Service W) → Holds v → Holds (stop os cb v)
    unfolding stop close_workers
    stop-Holds v q =
        let v0 = record v { running = false; listen = false } in
        let v1 = close_all os cb v.net.sessions v0 in
        let q1 = close_all-Holds v.net.sessions v0 q in
        if_both Holds (not v.running) _ _ q (if_both Holds v1.iocp _ _ q1 q1)

    send_to-Holds :
        (b : SendBuffer) (id : ℕ) (v : Service W) → Holds v → Holds (send_to os cb b id v)
    unfolding send_to update_session
    send_to-Holds b id v q = if_both Holds (v.objects id).closing _ _ q (
        enqueue_send-Preserves (session_env os cb id) (Q v.next_session)
          (k.session v.next_session id) (some b) v.net (v.objects id) q)

    send_to_all-Holds :
        (b : SendBuffer) (ids : List ℕ) (v : Service W)
        → Holds v
        → Holds (send_to_all os cb b ids v)
    unfolding send_to_all
    send_to_all-Holds b [] v q = q
    send_to_all-Holds b (id ∷ ids) v q =
        send_to_all-Holds b ids (send_to os cb b id v) (send_to-Holds b id v q)

    broadcast_buffer-Holds :
        (b : Option SendBuffer) (v : Service W) → Holds v → Holds (broadcast_buffer os cb b v)
    unfolding broadcast_buffer
    broadcast_buffer-Holds none v q = q
    broadcast_buffer-Holds (some b) v q = send_to_all-Holds b v.net.sessions v q

    worker_round-Holds :
        (c : Completion) (v : Service W) (t : Bool × Service W)
        → Holds v
        → worker_round os cb c v ≡ some t
        → Holds t.1
    unfolding worker_round update_session
    worker_round-Holds wake_up v t q e = along_some HoldsAfter e q
    worker_round-Holds (received id ok bytes) v t q e =
        let (r, h, i) = bind-some _ _ t e in
        along_some HoldsAfter i (
          complete_recv-Preserves (session_env os cb id) (Q v.next_session)
            (k.session v.next_session id) ok bytes v.net (v.objects id) r q h)
    worker_round-Holds (transmitted id ok bytes) v t q e = along_some HoldsAfter e (
        complete_send-Preserves (session_env os cb id) (Q v.next_session)
          (k.session v.next_session id) ok bytes v.net (v.objects id) q)

    pub Step-Holds :
        {v v' : Service W} → Step os cb v v' → Q v.next_session v.net → Q v'.next_session v'.net
    Step-Holds {v} {v'} (starts_server n e) q = rw e (start_server-Holds n v q)
    Step-Holds {v} {v'} (starts_client n e) q = rw e (start_client-Holds n v q)
    Step-Holds {v} {v'} (connects e) q = rw e (connect_to-Holds v q)
    Step-Holds {v} {v'} (accepts e) q = rw e (accept_round-Holds v q)
    Step-Holds {v} {v'} (completes c b d e) q = worker_round-Holds c v (b, v') q e
    Step-Holds {v} {v'} (closes id l e) q = rw e (close_session-Holds id v q)
    Step-Holds {v} {v'} (sends id b l e) q = rw e (send_to-Holds b id v q)
    Step-Holds {v} {v'} (broadcasts b e) q = rw e (broadcast_buffer-Holds b v q)
    Step-Holds {v} {v'} (stops e) q = rw e (stop-Holds v q)
