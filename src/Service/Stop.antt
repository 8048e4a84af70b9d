-- ===== src/Service/Stop.antt =====
-- `Stop` and `Broadcast` of ServerCore/NetService.cpp run over a snapshot of the set of sessions.
use simple_server.Prelude.{
  ℕ, ◌<◌, ◌≡◌, refl, true, false, not, ◌||◌, Option, none, some, List, [], ◌∷◌, arith, ◌==◌,
  if_both,
}
use simple_server.SendBuffer.{SendBuffer}
use simple_server.Keys.{has_key}
use simple_server.Session.{close}
use simple_server.Session.Handling.{IsOrderly}
use simple_server.Service.{
  Service, Os, Callbacks, update_session, session_env, close_session, close_all, send_to,
  send_to_all, broadcast_buffer, close_workers, stop,
}
use simple_server.Service.Tracks.{IsTame}
use simple_server.Service.Registered.{
  IsRegistered, close_session-IsRegistered, send_to-IsRegistered,
}

-- All keys of the list are sessions of the service.
abbrev pub Known : {W : Type 0} → List ℕ → Service W → Type 0
Known ids v = (k : ℕ) → has_key k ids ≡ true → k < v.next_session

-- What `Stop` leaves of the sessions and of the handles.
pub record IsStopped {W : Type 0} (v : Service W) : Type 0 where
  pub empty : v.net.sessions ≡ []
  pub all_closed : (k : ℕ) → k < v.next_session → (v.objects k).closing ≡ true
  pub not_running : v.running ≡ false
  pub no_listen : v.listen ≡ false
  pub no_port : v.iocp ≡ false

module _ {W : Type 0} (os : Os W) (cb : Callbacks W) where
  tail-Known :
      (id : ℕ) (ids : List ℕ) (v v' : Service W)
      → v'.next_session ≡ v.next_session
      → Known (id ∷ ids) v
      → Known ids v'
  unfolding has_key
  tail-Known id ids v v' e a k h = ground (arith, a k)

  head-lt : (id : ℕ) (ids : List ℕ) (v : Service W) → Known (id ∷ ids) v → id < v.next_session
  unfolding has_key
  head-lt id ids v a = a id (ground arith)

  sessions-Known : (v : Service W) → IsRegistered v → Known v.net.sessions v
  sessions-Known v g k h = ground (arith, g.in_set k)

  closing-close_session :
      (id k : ℕ) (v : Service W)
      → ((close_session os cb id v).objects k).closing ≡ (k == id || (v.objects k).closing)
  unfolding close_session update_session close
  closing-close_session id k v = ground arith

  closing-close_all :
      (ids : List ℕ) (k : ℕ) (v : Service W)
      → ((close_all os cb ids v).objects k).closing ≡ (has_key k ids || (v.objects k).closing)
  unfolding close_all has_key
  closing-close_all [] k v = refl
  closing-close_all (id ∷ ids) k v =
      ground
        (arith, closing-close_all ids k (close_session os cb id v), closing-close_session id k v)

  next-close_all :
      (ids : List ℕ) (v : Service W) → (close_all os cb ids v).next_session ≡ v.next_session
  unfolding close_all close_session update_session
  next-close_all [] v = refl
  next-close_all (id ∷ ids) v = next-close_all ids (close_session os cb id v)

  next-send_to :
      (b : SendBuffer) (id : ℕ) (v : Service W)
      → (send_to os cb b id v).next_session ≡ v.next_session
  unfolding send_to update_session
  next-send_to b id v = ground arith

  handles-close_all :
      (ids : List ℕ) (v : Service W)
      → ((close_all os cb ids v).running ≡ v.running) × ((close_all os cb ids v).listen ≡ v.listen)
  unfolding close_all close_session update_session
  handles-close_all [] v = (refl, refl)
  handles-close_all (id ∷ ids) v = handles-close_all ids (close_session os cb id v)

  no_keys : (ks : List ℕ) → ((k : ℕ) → has_key k ks ≡ false) → ks ≡ []
  unfolding has_key
  no_keys [] h = refl
  no_keys (k ∷ ks) h = absurd (let e = h k in ground arith)

  abbrev halted : Service W → Service W
  halted v = record v { running = false; listen = false }

  halted-IsRegistered : (v : Service W) → IsRegistered v → IsRegistered (halted v)
  halted-IsRegistered v g = record { unique = g.unique; in_set = g.in_set; handled = g.handled }

  close_workers-IsRegistered : (v : Service W) → IsRegistered v → IsRegistered (close_workers v)
  unfolding close_workers
  close_workers-IsRegistered v g =
      if_both IsRegistered v.iocp (record v { workers = 0; iocp = false }) v
        (record { unique = g.unique; in_set = g.in_set; handled = g.handled }) g

  module _ (tame : IsTame os cb) (orderly : (id : ℕ) → IsOrderly (session_env os cb id)) where
    close_all-IsRegistered :
        (ids : List ℕ) (v : Service W)
        → Known ids v
        → IsRegistered v
        → IsRegistered (close_all os cb ids v)
    unfolding close_all
    close_all-IsRegistered [] v a g = g
    close_all-IsRegistered (id ∷ ids) v a g =
        close_all-IsRegistered ids (close_session os cb id v)
          (tail-Known id ids v (close_session os cb id v) (next-close_all (id ∷ []) v) a)
          (close_session-IsRegistered os cb tame orderly id v (head-lt id ids v a) g)

    send_to_all-IsRegistered :
        (b : SendBuffer) (ids : List ℕ) (v : Service W)
        → Known ids v
        → IsRegistered v
        → IsRegistered (send_to_all os cb b ids v)
    unfolding send_to_all
    send_to_all-IsRegistered b [] v a g = g
    send_to_all-IsRegistered b (id ∷ ids) v a g =
        send_to_all-IsRegistered b ids (send_to os cb b id v)
          (tail-Known id ids v (send_to os cb b id v) (next-send_to b id v) a)
          (send_to-IsRegistered os cb tame orderly b id v (head-lt id ids v a) g)

    pub broadcast_buffer-IsRegistered :
        (b : Option SendBuffer) (v : Service W)
        → IsRegistered v
        → IsRegistered (broadcast_buffer os cb b v)
    unfolding broadcast_buffer
    broadcast_buffer-IsRegistered none v g = g
    broadcast_buffer-IsRegistered (some b) v g =
        send_to_all-IsRegistered b v.net.sessions v (sessions-Known v g) g

    pub stop-IsRegistered : (v : Service W) → IsRegistered v → IsRegistered (stop os cb v)
    unfolding stop
    stop-IsRegistered v g =
        let v0 = halted v in
        let v1 = close_all os cb v0.net.sessions v0 in
        let g0 = halted-IsRegistered v g in
        if_both IsRegistered (not v.running) v (close_workers v1) g (
          close_workers-IsRegistered v1
            (close_all-IsRegistered v0.net.sessions v0 (sessions-Known v0 g0) g0))

    -- Once the snapshot is closed, no session is open.
    closed_all :
        (v : Service W) (k : ℕ)
        → IsRegistered v
        → let v1 = close_all os cb v.net.sessions v in
          (has_key k v1.net.sessions ≡ false)
          × (k < v1.next_session → (v1.objects k).closing ≡ true)
    closed_all v k g = ground (
      arith,
      (close_all-IsRegistered v.net.sessions v (sessions-Known v g) g).in_set k,
      closing-close_all v.net.sessions k v,
      next-close_all v.net.sessions v,
      g.in_set k,
    )

    -- If the handler and the callbacks leave the sessions in order and touch the set only by closing,
    -- then `Stop` on a running service, whose set holds exactly the open sessions and whose sessions
    -- are in order, closes every session and leaves the set empty, the listening socket and the port
    -- closed, and the service not running.
    pub stop-IsStopped :
        (v : Service W) → v.running ≡ true → IsRegistered v → IsStopped (stop os cb v)
    unfolding stop close_workers
    stop-IsStopped v r g =
        let v0 = halted v in
        let v1 = close_all os cb v0.net.sessions v0 in
        let g0 = halted-IsRegistered v g in
        let h = handles-close_all v0.net.sessions v0 in
        let e = no_keys v1.net.sessions (λ k. (closed_all v0 k g0).0) in
        rw r (record {
          empty = ground (arith, e);
          all_closed = λ k. ground (arith, (closed_all v0 k g0).1);
          not_running = ground (arith, h.0);
          no_listen = ground (arith, h.1);
          no_port = ground arith;
        })
