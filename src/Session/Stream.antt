-- ===== src/Session/Stream.antt =====
-- `EnqueueSend` (ServerCore/Session.cpp) and the receive stream: it is not looked at, and it is
-- cleared if the session closes.
use simple_server.Prelude.{
  ℕ, ◌≤◌, ◌≡◌, refl, ◌∙◌, inl, inr, Bool, true, false, Option, none, some, List, [], ◌∷◌, ◌++◌,
  arith, if◌then◌else◌, Bool-cases, length,
}
use simple_server.SendBuffer.{SendBuffer}
use simple_server.Session.{
  Session, Env, close, close_with_log, close_if, post_front, enqueue_locked, enqueue_send,
}
use simple_server.Session.Drain.{append_stream}

-- The same result with `x` behind the stream, and what holds of the session besides.
abbrev Appends : {W : Type 0} → List ℕ → Session → Bool × W × Session → Bool × W × Session → Type 0
Appends x s r t =
    (t ≡ (r.0, r.1, append_stream r.2 x))
    × (r.2.closing ≡ s.closing)
    × (r.2.recv_stream ≡ s.recv_stream)

module _ {W : Type 0} (env : Env W) where
  post_front-append :
      (q : List SendBuffer) (w : W) (s : Session) (x : List ℕ)
      → Appends x s (post_front env q w s) (post_front env q w (append_stream s x))
  unfolding post_front
  post_front-append [] w s x = (refl, refl, refl)
  post_front-append (b ∷ q) w s x = ground arith

  enqueue_locked-append :
      (b : SendBuffer) (w : W) (s : Session) (x : List ℕ)
      → Appends x s (enqueue_locked env b w s) (enqueue_locked env b w (append_stream s x))
  unfolding enqueue_locked
  enqueue_locked-append b w s x = ground (
    arith,
    post_front-append (s.send_q ++ (b ∷ [])) w
        (record s { send_q = s.send_q ++ (b ∷ []); sending = true }) x,
  )

  close_if-append :
      (r : Bool × W × Session) (x : List ℕ)
      → r.2.closing ≡ false
      → let c = close_if env r in
        (close_if env (r.0, r.1, append_stream r.2 x)
          ≡ (c.0, if c.1.closing then c.1 else append_stream c.1 x))
        × (length c.1.recv_stream ≤ length r.2.recv_stream)
  unfolding close_if close_with_log close
  close_if-append (true, w, s) x o = ground arith
  close_if-append (false, w, s) x o = ground arith

  -- `EnqueueSend` on an open session does the same with more bytes behind the stream, which then
  -- stay there unless the session closes; and it adds none.
  pub enqueue_send-append :
      (b : Option SendBuffer) (w : W) (s : Session) (x : List ℕ)
      → s.closing ≡ false
      → let r = enqueue_send env b w s in
        (enqueue_send env b w (append_stream s x)
          ≡ (r.0, if r.1.closing then r.1 else append_stream r.1 x))
        × (length r.1.recv_stream ≤ length s.recv_stream)
  unfolding enqueue_send
  enqueue_send-append none w s x o = ground arith
  enqueue_send-append (some b) w s x o =
      let l = enqueue_locked-append b w s x in
      let c = close_if-append (enqueue_locked env b w s) x (l.1 ∙ o) in ground arith

  -- It adds nothing to the stream, closed or not.
  pub enqueue_send-length :
      (b : Option SendBuffer) (w : W) (s : Session)
      → length (enqueue_send env b w s).1.recv_stream ≤ length s.recv_stream
  unfolding enqueue_send
  enqueue_send-length none w s = omega arith
  enqueue_send-length (some b) w s = elim (Bool-cases s.closing) [
    | inl closed ↦ ground arith
    | inr o ↦ let p = enqueue_send-append (some b) w s [] o in ground arith
  ]
