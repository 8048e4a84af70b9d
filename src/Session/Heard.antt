-- ===== src/Session/Heard.antt =====
-- The packets that a session has given to its handler, in every state that it can reach: those at the
-- front of the bytes that have arrived (ServerCore/Session.cpp, NetService.cpp).
use simple_server.Prelude.{
  ℕ, ◌-◌, ◌≡◌, refl, ◌∙◌, inl, inr, Bool, true, false, not, ◌||◌, Option, none, some, List, [],
  ◌++◌, arith, if◌then◌else◌, ◌>>=◌, is_empty, along_some, if-cases, bind-some,
}
use simple_server.Packet.{try_get_packet}
use simple_server.Packet.Reads.{Reads-append, Reads-refl}
use simple_server.Session.{
  Session, Env, new_session, release, close, start, drain, after_loop, LoopEnd, drained, returned,
  on_recv_complete, complete_recv,
}
use simple_server.Session.Drain.{IsFraming}
use simple_server.Session.Aside.{
  Log, recording, IsAside, close-Untouched, post_recv-Untouched, late_enqueue-Untouched,
  enqueue_send-Untouched, complete_send-Untouched,
}
use simple_server.Session.Delivery.{
  IsCaughtUp, IsCaughtUp-closed, close-IsCaughtUp, recv_loop-CaughtUp,
}
use simple_server.Session.Reach.{
  Reach, started, next, recv_completes, send_completes, sends, sends_late, closes,
}

-- The bytes that one completed receive brings.
abbrev pub arrived : Bool → List ℕ → List ℕ
arrived true bytes = bytes
arrived false bytes = []

-- All the bytes that have come in on the way to a state.
unfoldable pub received_bytes :
    {W : Type 0} {env : Env W} {w : W} {t : W × Session} → Reach env w t → List ℕ
received_bytes started = []
received_bytes (next r (recv_completes ok bytes p e)) = received_bytes r ++ arrived ok bytes
received_bytes (next r _) = received_bytes r

-- What is asked of the callback: not to put bytes into the stream.
abbrev pub LeavesEmpty : {W : Type 0} → Env W → Type 0
LeavesEmpty {W} env = (w : W) → (env.notify_connected w new_session).1.recv_stream ≡ []

module _ {W : Type 0} (env : Env W) (framing : IsFraming env) where
  IsCaughtUp-Aside :
      (b : List ℕ) (v v' : Log W) (s s' : Session)
      → IsCaughtUp b v.1 s
      → IsAside v s v' s'
      → IsCaughtUp b v'.1 s'
  IsCaughtUp-Aside b v v' s s' h a = record {
    left = h.left;
    handed = rw a.same_log h.handed;
    kept = λ o. a.same_stream o ∙ h.kept (a.was_open o);
    partial = λ o. h.partial (a.was_open o);
  }

  abbrev UpToDate : List ℕ → Log W × Session → Type 0
  UpToDate b r = IsCaughtUp b r.0.1 r.1

  after_loop-UpToDate :
      (b : List ℕ) (r : LoopEnd × Log W × Session)
      → IsCaughtUp b r.1.1 r.2
      → UpToDate b (after_loop (recording env) r)
  unfolding after_loop
  after_loop-UpToDate b (drained, v, s) h =
      let r = after_loop (recording env) (drained, v, s) in
      IsCaughtUp-Aside b v r.0 s r.1 h (post_recv-Untouched env v s)
  after_loop-UpToDate b (returned, v, s) h = h

  on_recv_complete-UpToDate :
      (b bytes : List ℕ) (v : Log W) (s : Session) (r : Log W × Session)
      → IsCaughtUp b v.1 s
      → on_recv_complete (recording env) bytes v s ≡ some r
      → UpToDate (b ++ bytes) r
  unfolding on_recv_complete drain
  on_recv_complete-UpToDate b bytes v s r h e =
      let later = Reads-append b h.left bytes v.1 h.handed in
      elim (if-cases s.closing _ _ _ e) [
        | inl (c, k) ↦
            along_some (UpToDate (b ++ bytes)) k
              (IsCaughtUp-closed env (b ++ bytes) v.1 (h.left ++ bytes) s later c)
        | inr (o, k) ↦
            let (t, a, d) = bind-some _ _ r k in
            along_some (UpToDate (b ++ bytes)) d (
              after_loop-UpToDate (b ++ bytes) t
                (recv_loop-CaughtUp env framing _ (b ++ bytes) v _ t o (rw (h.kept o) later) a))
      ]

  released-UpToDate :
      (b : List ℕ) (m : Option (Log W × Session)) (t : Log W × Session)
      → ((r : Log W × Session) → m ≡ some r → UpToDate b r)
      → (m >>= λ r. some (r.0, release r.1)) ≡ some t
      → UpToDate b t
  unfolding release
  released-UpToDate b none t h e = absurd (cc)
  released-UpToDate b (some r) t h e =
      let u = h r refl in
      along_some (UpToDate b) e
        (record { left = u.left; handed = u.handed; kept = u.kept; partial = u.partial })

  complete_recv-UpToDate :
      (b : List ℕ) (ok : Bool) (bytes : List ℕ) (v : Log W) (s : Session) (t : Log W × Session)
      → IsCaughtUp b v.1 s
      → complete_recv (recording env) ok bytes v s ≡ some t
      → UpToDate (b ++ arrived ok bytes) t
  unfolding complete_recv
  complete_recv-UpToDate b ok bytes v s t h e =
      let s1 = record s { pending_recv = s.pending_recv - 1 } in
      let h1 : IsCaughtUp b v.1 s1 = record {
        left = h.left;
        handed = h.handed;
        kept = h.kept;
        partial = h.partial;
      } in
      let later = Reads-append b h.left (arrived ok bytes) v.1 h.handed in
      let m =
        if not ok || is_empty bytes
        then some (close (recording env) v s1)
        else on_recv_complete (recording env) bytes v s1 in
      released-UpToDate (b ++ arrived ok bytes) m t
        (λ r k.
          elim (if-cases (not ok || is_empty bytes) (some (close (recording env) v s1))
            (on_recv_complete (recording env) bytes v s1) (some r) k) [
              | inl (c, q) ↦ along_some (UpToDate (b ++ arrived ok bytes)) q (
                  close-IsCaughtUp env (b ++ arrived ok bytes) (h.left ++ arrived ok bytes) v s1
                    later)
              | inr (c, q) ↦
                  let up : ok ≡ true = ground arith in
                  rw up (on_recv_complete-UpToDate b bytes v s1 r h1 q)
            ])
        e

  Step-UpToDate :
      (b : List ℕ) (from to : Log W × Session)
      → UpToDate b from
      → IsAside from.0 from.1 to.0 to.1
      → UpToDate b to
  Step-UpToDate b from to h a = IsCaughtUp-Aside b from.0 to.0 from.1 to.1 h a

  start-UpToDate :
      LeavesEmpty env → (w : W) → UpToDate [] (start (recording env) (w, []) new_session)
  unfolding start recording try_get_packet
  start-UpToDate empty w =
      let r = (recording env).notify_connected (w, []) new_session in
      IsCaughtUp-Aside [] r.0 _ r.1 _
        (record { left = []; handed = Reads-refl []; kept = λ o. empty w; partial = λ o. refl })
        (post_recv-Untouched env r.0 r.1)

  pub Reach-IsCaughtUp :
      LeavesEmpty env
      → (w : W) {t : Log W × Session} (r : Reach (recording env) (w, []) t)
      → IsCaughtUp (received_bytes r) t.0.1 t.1
  unfolding received_bytes
  Reach-IsCaughtUp empty w started = start-UpToDate empty w
  Reach-IsCaughtUp empty w {t} (next {from} r (recv_completes ok bytes p e)) =
      complete_recv-UpToDate (received_bytes r) ok bytes from.0 from.1 t
        (Reach-IsCaughtUp empty w r) e
  Reach-IsCaughtUp empty w {t} (next {from} r (send_completes ok bytes p e)) =
      Step-UpToDate (received_bytes r) from t (Reach-IsCaughtUp empty w r)
        (rw e (complete_send-Untouched env ok bytes from.0 from.1))
  Reach-IsCaughtUp empty w {t} (next {from} r (sends b e)) =
      Step-UpToDate (received_bytes r) from t (Reach-IsCaughtUp empty w r)
        (rw e (enqueue_send-Untouched env b from.0 from.1))
  Reach-IsCaughtUp empty w {t} (next {from} r (sends_late b e)) =
      Step-UpToDate (received_bytes r) from t (Reach-IsCaughtUp empty w r)
        (rw e (late_enqueue-Untouched env b from.0 from.1))
  Reach-IsCaughtUp empty w {t} (next {from} r (closes e)) =
      Step-UpToDate (received_bytes r) from t (Reach-IsCaughtUp empty w r)
        (rw e (close-Untouched env from.0 from.1))
