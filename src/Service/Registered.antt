-- ===== src/Service/Registered.antt =====
-- The set of sessions of a service (ServerCore/NetService.cpp): it holds the open ones.
use simple_server.Prelude.{
  ℕ, ◌+◌, ◌<◌, ◌≡◌, refl, ◌≢◌, Bool, true, not, ◌&&◌, Option, none, some, arith, ltb, ◌==◌,
  if◌then◌else◌, lt→ltb, ◌>>=◌, along_some, if_both,
}
use simple_server.SendBuffer.{SendBuffer}
use simple_server.SendBuffer.{SendBuffer}
use simple_server.Keys.{
  has_key, IsUnique, has_key-insert_key, IsUnique-insert_key, has_key-erase_key_self,
  has_key-erase_key_ne, IsUnique-erase_key,
}
use simple_server.Session.{Session, new_session}
use simple_server.Session.Handling.{IsOrderly, IsHandled, complete_recv-IsHandled}
use simple_server.Session.Calls.{
  new_session-IsHandled, enqueue_send-IsHandled, close-IsHandled, start-IsHandled,
  complete_send-IsHandled,
}
use simple_server.Service.{
  Net, Service, Os, Callbacks, Completion, wake_up, received, transmitted, add_session,
  update_session, session_env, on_net, create_and_register_session, new_service, close_session,
  send_to, worker_round,
}
use simple_server.Service.Tracks.{
  Tracks, IsTame, close-Tracks, enqueue_send-Tracks, start-Tracks, complete_recv-Tracks,
  complete_send-Tracks,
}

-- The set has no repetitions and holds exactly the sessions that are made and not closed; and every
-- session is in order.
pub record IsRegistered {W : Type 0} (v : Service W) : Type 0 where
  pub unique : IsUnique v.net.sessions
  pub in_set :
      (k : ℕ) → has_key k v.net.sessions ≡ (ltb k v.next_session && not (v.objects k).closing)
  pub handled : (k : ℕ) → IsHandled 0 (v.objects k)

module _ {W : Type 0} where
  pub new_service-IsRegistered : (w : W) → IsRegistered (new_service w)
  unfolding new_service has_key
  new_service-IsRegistered w = record {
    unique = tt;
    in_set = λ k. ground arith;
    handled = λ k. new_session-IsHandled;
  }

  -- The set after session `id` has run from `n` and `s`.
  put-IsUnique :
      (id : ℕ) (n n' : Net W) (s s' : Session)
      → Tracks id n s n' s'
      → IsUnique n.sessions
      → IsUnique n'.sessions
  put-IsUnique id n n' s s' t u =
      rw t.erased
        (if_both IsUnique (not s.closing && s'.closing) _ _ (IsUnique-erase_key id n.sessions u) u)

  put-has_key :
      (id k : ℕ) (n n' : Net W) (s s' : Session)
      → Tracks id n s n' s'
      → IsUnique n.sessions
      → has_key id n.sessions ≡ not s.closing
      → has_key k n'.sessions ≡ (if k == id then not s'.closing else has_key k n.sessions)
  put-has_key id k n n' s s' t u h = ground (
    arith,
    t.erased,
    t.stays,
    has_key-erase_key_self id n.sessions u,
    has_key-erase_key_ne id k n.sessions,
  )

  -- A session that runs from `n` and `s`, where only it may differ from what the service knows.
  put-IsRegistered :
      (v : Service W) (id : ℕ) (n n' : Net W) (s s' : Session)
      → id < v.next_session
      → IsUnique n.sessions
      → has_key id n.sessions ≡ not s.closing
      → ((k : ℕ)
          → k ≢ id
          → has_key k n.sessions ≡ (ltb k v.next_session && not (v.objects k).closing))
      → ((k : ℕ) → IsHandled 0 (v.objects k))
      → Tracks id n s n' s'
      → IsHandled 0 s'
      → IsRegistered (update_session id (n', s') v)
  unfolding update_session
  put-IsRegistered v id n n' s s' l u own rest hs t h = record {
    unique = put-IsUnique id n n' s s' t u;
    in_set =
        λ k. ground (arith, put-has_key id k n n' s s' t u own, rest k, lt→ltb id v.next_session l);
    handled = λ k. if_both (IsHandled 0) (k == id) s' (v.objects k) h (hs k);
  }

  -- A session of the service runs.
  pub update-IsRegistered :
      (v : Service W) (id : ℕ) (r : Net W × Session)
      → id < v.next_session
      → IsRegistered v
      → Tracks id v.net (v.objects id) r.0 r.1
      → IsHandled 0 r.1
      → IsRegistered (update_session id r v)
  update-IsRegistered v id (n, s) l g t h =
      put-IsRegistered v id v.net n (v.objects id) s l g.unique
        (ground (arith, g.in_set id, lt→ltb id v.next_session l)) (λ k d. g.in_set k) g.handled t h

  -- A completion comes for an operation that was posted.
  abbrev pub Due : Completion → Service W → Type 0
  Due wake_up v = Unit
  Due (received id ok bytes) v = (id < v.next_session) × (0 < (v.objects id).pending_recv)
  Due (transmitted id ok bytes) v = (id < v.next_session) × (0 < (v.objects id).pending_send)

  module _ (os : Os W) (cb : Callbacks W) (tame : IsTame os cb)
      (orderly : (id : ℕ) → IsOrderly (session_env os cb id)) where
    pub create_and_register_session-IsRegistered :
        (v : Service W) → IsRegistered v → IsRegistered (create_and_register_session os cb v).1
    unfolding create_and_register_session add_session new_session
    create_and_register_session-IsRegistered v g =
        let id = v.next_session in
        let n = (on_net (os.register_socket id) v.net).1 in
        if_both (λ (r : Bool × Service W). IsRegistered r.1)
          (not (on_net (os.register_socket id) v.net).0) _ _
          (record { unique = g.unique; in_set = g.in_set; handled = g.handled })
          (put-IsRegistered (record v { next_session = id + 1 }) id (add_session id n) _ new_session
            _ (omega arith) (IsUnique-insert_key id v.net.sessions g.unique)
            (ground (arith, has_key-insert_key id id v.net.sessions))
            (λ k d. ground (arith, has_key-insert_key id k v.net.sessions, g.in_set k)) g.handled
            (start-Tracks os cb tame id (add_session id n) new_session)
            (start-IsHandled (session_env os cb id) (orderly id) (add_session id n)))

    pub close_session-IsRegistered :
        (id : ℕ) (v : Service W)
        → id < v.next_session
        → IsRegistered v
        → IsRegistered (close_session os cb id v)
    unfolding close_session
    close_session-IsRegistered id v l g =
        update-IsRegistered v id _ l g (close-Tracks os cb tame id v.net (v.objects id))
          (close-IsHandled (session_env os cb id) (orderly id) v.net (v.objects id) (g.handled id))

    pub send_to-IsRegistered :
        (b : SendBuffer) (id : ℕ) (v : Service W)
        → id < v.next_session
        → IsRegistered v
        → IsRegistered (send_to os cb b id v)
    unfolding send_to
    send_to-IsRegistered b id v l g = if_both IsRegistered (v.objects id).closing _ _ g (
        update-IsRegistered v id _ l g
          (enqueue_send-Tracks os cb tame id (some b) v.net (v.objects id))
          (enqueue_send-IsHandled (session_env os cb id) (orderly id) (some b) v.net (v.objects id)
            (g.handled id)))

    received-IsRegistered :
        (id : ℕ) (v : Service W) (m : Option (Net W × Session)) (t : Bool × Service W)
        → ((r : Net W × Session) → m ≡ some r → IsRegistered (update_session id r v))
        → (m >>= λ r. some (true, update_session id r v)) ≡ some t
        → IsRegistered t.1
    received-IsRegistered id v none t h e = absurd (cc)
    received-IsRegistered id v (some r) t h e =
        along_some (λ (u : Bool × Service W). IsRegistered u.1) e (h r refl)

    pub worker_round-IsRegistered :
        (c : Completion) (v : Service W) (t : Bool × Service W)
        → Due c v
        → IsRegistered v
        → worker_round os cb c v ≡ some t
        → IsRegistered t.1
    unfolding worker_round
    worker_round-IsRegistered wake_up v t d g e =
        along_some (λ (u : Bool × Service W). IsRegistered u.1) e g
    worker_round-IsRegistered (received id ok bytes) v t d g e =
        received-IsRegistered id v _ t
          (λ r h.
            update-IsRegistered v id r d.0 g
              (complete_recv-Tracks os cb tame id ok bytes v.net (v.objects id) r h)
              (complete_recv-IsHandled (session_env os cb id) (orderly id) ok bytes v.net
                (v.objects id) r (g.handled id) d.1 h))
          e
    worker_round-IsRegistered (transmitted id ok bytes) v t d g e =
        along_some (λ (u : Bool × Service W). IsRegistered u.1) e
          (update-IsRegistered v id _ d.0 g
            (complete_send-Tracks os cb tame id ok bytes v.net (v.objects id))
            (complete_send-IsHandled (session_env os cb id) (orderly id) ok bytes v.net
              (v.objects id) (g.handled id) d.1))
