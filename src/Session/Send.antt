-- ===== src/Session/Send.antt =====
-- The order in which `EnqueueSend` and `OnSendComplete` (ServerCore/Session.cpp) hand buffers to WinSock.
use simple_server.Prelude.{
  ◌<◌, ◌≡◌, refl, ◌⊎◌, inl, inr, Bool, true, false, some, List, [], ◌∷◌, ◌++◌, arith, Bool-cases,
  length, tail_of,
}
use mathlib.Core.List.{append_assoc, append-nil}
use simple_server.SendBuffer.{SendBuffer}
use simple_server.Session.{
  Session, Env, close, close_with_log, close_if, post_front, enqueue_locked, enqueue_send,
  send_complete_locked, on_send_complete, max_send_queue_size,
}
use simple_server.Session.Lifetime.{IsQueued}

-- The buffers that wait behind the one in flight.
abbrev pub waiting : Bool → List SendBuffer → List SendBuffer
waiting true q = tail_of q
waiting false q = q

-- All the buffers that a session has accepted: those handed to `WSASend`, then those that wait.
abbrev pub accepted : Session → List SendBuffer
accepted s = s.sent ++ waiting s.sending s.send_q

module _ {W : Type 0} (env : Env W) where
  tail_of-push :
      (q : List SendBuffer) (b : SendBuffer)
      → 0 < length q
      → tail_of (q ++ (b ∷ [])) ≡ tail_of q ++ (b ∷ [])
  tail_of-push [] b h = absurd (omega arith)
  tail_of-push (x ∷ q) b h = refl

  front_idle :
      (q : List SendBuffer) (b : SendBuffer) (w : W) (s : Session)
      → q ≡ []
      → post_front env (q ++ (b ∷ [])) w s ≡ post_front env (b ∷ []) w s
  front_idle q b w s e = rw e

  -- `WSASend` fails at once for some buffer.
  abbrev pub Refused : W → Type 0
  Refused w = (b : SendBuffer) × ((env.wsa_send b w).0 ≡ false)

  -- What may become of the accepted buffers: `to`, or else `WSASend` failed and the session is closed.
  abbrev pub Accepts : W → Session → List SendBuffer → Type 0
  Accepts w s to = (Refused w × (s.closing ≡ true)) ⊎ (accepted s ≡ to)

  idle_push :
      (b : SendBuffer) (w : W) (s : Session)
      → s.closing ≡ false
      → s.sending ≡ false
      → 0 < b.write_size
      → IsQueued 0 s
      → Accepts w (enqueue_send env (some b) w s).1 (accepted s ++ (b ∷ []))
  unfolding enqueue_send enqueue_locked post_front close_if close_with_log close
  idle_push b w s o i p v =
      let e = v.idle o i in
      let f =
        front_idle s.send_q b w (record s { send_q = s.send_q ++ (b ∷ []); sending = true }) e in
      elim (Bool-cases (env.wsa_send b w).0) [
        | inl up ↦ inr (ground (arith, append-nil s.sent, append-nil (s.sent ++ (b ∷ []))))
        | inr down ↦ inl ((b, down), ground arith)
      ]

  -- A buffer that is not empty, sent on an open session with room in a queue that agrees with the
  -- send in flight, is accepted behind all the others; or `WSASend` failed and the session is closed.
  pub enqueue_send-accepted :
      (b : SendBuffer) (w : W) (s : Session)
      → s.closing ≡ false
      → 0 < b.write_size
      → length s.send_q < max_send_queue_size
      → IsQueued 0 s
      → Accepts w (enqueue_send env (some b) w s).1 (accepted s ++ (b ∷ []))
  unfolding enqueue_send enqueue_locked post_front close_if close_with_log close
  enqueue_send-accepted b w s o p l v = elim (Bool-cases s.sending) [
    | inl busy ↦ inr (
        ground (
          arith,
          tail_of-push s.send_q b,
          append_assoc s.sent (tail_of s.send_q) (b ∷ []),
          v.front o busy,
        ))
    | inr i ↦ idle_push b w s o i p v
  ]

  complete_front :
      (q : List SendBuffer) (w : W) (s : Session)
      → s.closing ≡ false
      → s.sending ≡ true
      → s.send_q ≡ q
      → 0 < length q
      → Accepts w (on_send_complete env w s).1 (accepted s)
  unfolding on_send_complete send_complete_locked post_front close_if close_with_log close
  complete_front [] w s o t e l = absurd (omega arith)
  complete_front (x ∷ []) w s o t e l = inr (ground arith)
  complete_front (x ∷ y ∷ q) w s o t e l = elim (Bool-cases (env.wsa_send y w).0) [
    | inl up ↦ inr (ground (arith, append_assoc s.sent (y ∷ []) q))
    | inr down ↦ inl ((y, down), ground arith)
  ]

  -- When a send completes on an open session whose queue agrees with it, nothing is lost, repeated or
  -- reordered: the accepted buffers are the same; or `WSASend` failed for the next one and the session
  -- is closed.
  pub on_send_complete-accepted :
      (w : W) (s : Session)
      → s.closing ≡ false
      → IsQueued 1 s
      → Accepts w (on_send_complete env w s).1 (accepted s)
  on_send_complete-accepted w s o v =
      let t : s.sending ≡ true = (let p = v.one_in_flight o in ground arith) in
      complete_front s.send_q w s o t refl (v.front o t)
