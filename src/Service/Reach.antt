-- ===== src/Service/Reach.antt =====
-- Every state that a service can reach, from its construction on: ServerCore/NetService.cpp, with any
-- order of starts, connections, completions, sends, closings, broadcasts and stops.
use simple_server.Prelude.{
  ℕ, zero, suc, ◌+◌, ◌<◌, ◌≡◌, inl, inr, Bool, true, false, not, ◌||◌, Option, some, arith,
  Bool-cases, if_both,
}
use simple_server.SendBuffer.{SendBuffer}
use simple_server.Keys.{has_key}
use simple_server.Session.Handling.{IsOrderly}
use simple_server.Session.Lifetime.{deleted_idle}
use simple_server.Service.{
  Service, Os, Callbacks, Completion, session_env, new_service, calling, connect_to, accept_round,
  close_session, send_to, broadcast_buffer, stop, worker_round, is_client, server_mode, client_mode,
}
use simple_server.Service.Start.{
  start_workers, init_iocp_and_workers, start_listening, start_server, start_client,
}
use simple_server.Service.Tracks.{IsTame}
use simple_server.Service.Registered.{
  IsRegistered, Due, new_service-IsRegistered, create_and_register_session-IsRegistered,
  close_session-IsRegistered, send_to-IsRegistered, worker_round-IsRegistered,
}
use simple_server.Service.Stop.{broadcast_buffer-IsRegistered, stop-IsRegistered}

module _ {W : Type 0} (os : Os W) (cb : Callbacks W) where
  -- `sends` is `EnqueueSend` from another thread, such as that of the room.
  pub data Step (v v' : Service W) : Type 0 where
    starts_server : (n : ℕ) → v' ≡ (start_server os cb n v).1 → Step v v'
    starts_client : (n : ℕ) → v' ≡ (start_client os cb n v).1 → Step v v'
    connects : v' ≡ (connect_to os cb v).1 → Step v v'
    accepts : v' ≡ accept_round os cb v → Step v v'
    completes :
        (c : Completion) (goes_on : Bool)
        → Due c v
        → worker_round os cb c v ≡ some (goes_on, v')
        → Step v v'
    closes : (id : ℕ) → id < v.next_session → v' ≡ close_session os cb id v → Step v v'
    sends : (id : ℕ) (b : SendBuffer) → id < v.next_session → v' ≡ send_to os cb b id v → Step v v'
    broadcasts : (b : Option SendBuffer) → v' ≡ broadcast_buffer os cb b v → Step v v'
    stops : v' ≡ stop os cb v → Step v v'

  pub data Reach (w : W) : Service W → Type 0 where
    constructed : Reach w (new_service w)
    next : {v v' : Service W} → Reach w v → Step v v' → Reach w v'

  -- The sessions and what is known of them are the same.
  record IsSame (v v' : Service W) : Type 0 where
    same_set : v'.net.sessions ≡ v.net.sessions
    same_objects : v'.objects ≡ v.objects
    same_next : v'.next_session ≡ v.next_session

  IsSame-IsRegistered : (v v' : Service W) → IsSame v v' → IsRegistered v → IsRegistered v'
  IsSame-IsRegistered v v' e g = record {
    unique = rw e.same_set g.unique;
    in_set = λ k. rw (e.same_set, e.same_objects, e.same_next) (g.in_set k);
    handled = λ k. rw e.same_objects (g.handled k);
  }

  start_workers-IsSame : (n : ℕ) (v : Service W) → IsSame v (start_workers os cb n v).1
  unfolding start_workers
  start_workers-IsSame zero v = ground arith
  start_workers-IsSame (suc n) v =
      let v1 = (calling os.create_thread v).1 in
      ground (arith, start_workers-IsSame n (record v1 { workers = v1.workers + 1 }))

  init_iocp_and_workers-IsSame :
      (n : ℕ) (v : Service W) → IsSame v (init_iocp_and_workers os cb n v).1
  unfolding init_iocp_and_workers
  init_iocp_and_workers-IsSame n v =
      ground (arith, start_workers-IsSame n (record (calling os.create_port v).1 { iocp = true }))

  start_listening-IsSame : (n : ℕ) (v : Service W) → IsSame v (start_listening os cb n v).1
  unfolding start_listening
  start_listening-IsSame n v =
      let v1 = (calling os.bind_socket v).1 in
      ground (arith, init_iocp_and_workers-IsSame n (calling os.listen_socket v1).1)

  start_server-IsSame : (n : ℕ) (v : Service W) → IsSame v (start_server os cb n v).1
  unfolding start_server
  start_server-IsSame n v =
      let v1 = (calling os.open_socket (record v { running = true; mode = server_mode })).1 in
      ground (
        arith,
        start_listening-IsSame n (record v1 {
          listen = (calling os.open_socket (record v { running = true; mode = server_mode })).0;
        }),
      )

  start_client-IsSame : (n : ℕ) (v : Service W) → IsSame v (start_client os cb n v).1
  unfolding start_client
  start_client-IsSame n v =
      ground
        (arith, init_iocp_and_workers-IsSame n (record v { running = true; mode = client_mode }))

  module _ (tame : IsTame os cb) (orderly : (id : ℕ) → IsOrderly (session_env os cb id)) where
    calling-IsRegistered :
        (f : W → Bool × W) (v : Service W) → IsRegistered v → IsRegistered (calling f v).1
    calling-IsRegistered f v g = record {
      unique = g.unique;
      in_set = g.in_set;
      handled = g.handled;
    }

    connect_to-IsRegistered : (v : Service W) → IsRegistered v → IsRegistered (connect_to os cb v).1
    unfolding connect_to
    connect_to-IsRegistered v g =
        let v1 = (calling os.open_socket v).1 in
        let g1 = calling-IsRegistered os.open_socket v g in
        let v2 = (calling os.connect_socket v1).1 in
        let g2 = calling-IsRegistered os.connect_socket v1 g1 in
        if_both (λ (r : Bool × Service W). IsRegistered r.1)
          (not (is_client v.mode) || not v.running) _ _ g
          (if_both (λ (r : Bool × Service W). IsRegistered r.1) (not (calling os.open_socket v).0) _
            _ g1
            (if_both (λ (r : Bool × Service W). IsRegistered r.1)
              (not (calling os.connect_socket v1).0) _ _ g2
              (create_and_register_session-IsRegistered os cb tame orderly v2 g2)))

    accept_round-IsRegistered :
        (v : Service W) → IsRegistered v → IsRegistered (accept_round os cb v)
    unfolding accept_round
    accept_round-IsRegistered v g =
        let v1 = (calling os.accept_socket v).1 in
        let g1 = calling-IsRegistered os.accept_socket v g in
        if_both IsRegistered (not (calling os.accept_socket v).0) _ _ g1
          (create_and_register_session-IsRegistered os cb tame orderly v1 g1)

    pub Step-IsRegistered : {v v' : Service W} → Step v v' → IsRegistered v → IsRegistered v'
    Step-IsRegistered {v} {v'} (starts_server n e) g =
        rw e (IsSame-IsRegistered v _ (start_server-IsSame n v) g)
    Step-IsRegistered {v} {v'} (starts_client n e) g =
        rw e (IsSame-IsRegistered v _ (start_client-IsSame n v) g)
    Step-IsRegistered {v} {v'} (connects e) g = rw e (connect_to-IsRegistered v g)
    Step-IsRegistered {v} {v'} (accepts e) g = rw e (accept_round-IsRegistered v g)
    Step-IsRegistered {v} {v'} (completes c b d e) g =
        worker_round-IsRegistered os cb tame orderly c v (b, v') d g e
    Step-IsRegistered {v} {v'} (closes id l e) g =
        rw e (close_session-IsRegistered os cb tame orderly id v l g)
    Step-IsRegistered {v} {v'} (sends id b l e) g =
        rw e (send_to-IsRegistered os cb tame orderly b id v l g)
    Step-IsRegistered {v} {v'} (broadcasts b e) g =
        rw e (broadcast_buffer-IsRegistered os cb tame orderly b v g)
    Step-IsRegistered {v} {v'} (stops e) g = rw e (stop-IsRegistered os cb tame orderly v g)

    -- If the handler and the callbacks leave the sessions in order and touch the set only by closing,
    -- then in every reachable state the set holds exactly the sessions made and not closed, each once,
    -- and every session has an exact count, an orderly queue and at most one receive posted.
    pub Reach-IsRegistered : (w : W) {v : Service W} → Reach w v → IsRegistered v
    Reach-IsRegistered w constructed = new_service-IsRegistered w
    Reach-IsRegistered w (next r s) = Step-IsRegistered s (Reach-IsRegistered w r)

    -- If the handler and the callbacks leave the sessions in order and touch the set only by closing,
    -- no session that is in the set of a reachable service is deleted.
    pub Reach-live :
        (w : W) {v : Service W} (k : ℕ)
        → Reach w v
        → has_key k v.net.sessions ≡ true
        → (v.objects k).deleted ≡ false
    Reach-live w {v} k r h =
        let g = Reach-IsRegistered w r in
        elim (Bool-cases (v.objects k).deleted) [
          | inl d ↦
              absurd (let i = deleted_idle (g.handled k).counted d in ground (arith, g.in_set k))
          | inr a ↦ a
        ]
