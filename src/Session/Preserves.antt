-- ===== src/Session/Preserves.antt =====
-- What the calls of a session keep of the outside world, all its methods keep (ServerCore/Session.cpp).
use simple_server.Prelude.{
  ℕ, ◌-◌, ◌≡◌, inl, inr, Bool, true, false, not, ◌||◌, Option, none, some, List, [], ◌∷◌, ◌++◌, leb,
  ◌==◌, if◌then◌else◌, length, is_empty, tail_of, along_some, if-cases, if_both, bind-some,
}
use simple_server.SendBuffer.{SendBuffer}
use simple_server.Packet.{Packet}
use simple_server.Session.{
  Session, Env, close, close_with_log, close_if, post_recv, post_front, enqueue_locked,
  enqueue_send, send_complete_locked, on_send_complete, on_recv_complete, complete_recv,
  complete_send,
}
use simple_server.Session.Loop.{Keeps, on_recv_complete-keeps}

pub record Preserves {W : Type 0} (env : Env W) (Q : W → Type 0) : Type 0 where
  pub recv : (w : W) → Q w → Q (env.wsa_recv w).1
  pub send : (b : SendBuffer) (w : W) → Q w → Q (env.wsa_send b w).1
  pub packet : (p : Packet) (w : W) (s : Session) → Q w → Q (env.handle_packet p w s).1
  pub disconnected : (w : W) → Q w → Q (env.notify_disconnected w)

module _ {W : Type 0} (env : Env W) (Q : W → Type 0) (k : Preserves env Q) where
  pub close-Preserves : (w : W) (s : Session) → Q w → Q (close env w s).0
  unfolding close
  close-Preserves w s q = if_both (λ (r : W × Session). Q r.0) s.closing _ _ q (k.disconnected w q)

  pub post_recv-Preserves : (w : W) (s : Session) → Q w → Q (post_recv env w s).0
  unfolding post_recv
  post_recv-Preserves w s q =
      let P : W × Session → Type 0 = λ r. Q r.0 in
      let q1 = k.recv w q in
      if_both P s.closing _ _ q (if_both P (env.wsa_recv w).0 _ _ q1 (close-Preserves _ _ q1))

  post_front-Preserves :
      (bs : List SendBuffer) (w : W) (s : Session) → Q w → Q (post_front env bs w s).1
  unfolding post_front
  post_front-Preserves [] w s q = q
  post_front-Preserves (b ∷ bs) w s q =
      let P : Bool × W × Session → Type 0 = λ r. Q r.1 in
      let q1 = k.send b w q in if_both P s.closing _ _ q (if_both P (env.wsa_send b w).0 _ _ q1 q1)

  enqueue_locked-Preserves :
      (b : SendBuffer) (w : W) (s : Session) → Q w → Q (enqueue_locked env b w s).1
  unfolding enqueue_locked
  enqueue_locked-Preserves b w s q =
      let P : Bool × W × Session → Type 0 = λ r. Q r.1 in
      if_both P (leb 64 (length s.send_q)) _ _ q
        (if_both P s.sending _ _ q (post_front-Preserves (s.send_q ++ (b ∷ [])) w _ q))

  close_if-Preserves : (r : Bool × W × Session) → Q r.1 → Q (close_if env r).0
  unfolding close_if close_with_log
  close_if-Preserves (true, w, s) q = close-Preserves w s q
  close_if-Preserves (false, w, s) q = q

  pub enqueue_send-Preserves :
      (b : Option SendBuffer) (w : W) (s : Session) → Q w → Q (enqueue_send env b w s).0
  unfolding enqueue_send
  enqueue_send-Preserves none w s q = q
  enqueue_send-Preserves (some b) w s q =
      if_both (λ (r : W × Session). Q r.0) (leb b.write_size 0 || s.closing) _ _ q
        (close_if-Preserves _ (enqueue_locked-Preserves b w s q))

  send_complete_locked-Preserves : (w : W) (s : Session) → Q w → Q (send_complete_locked env w s).1
  unfolding send_complete_locked
  send_complete_locked-Preserves w s q =
      if_both (λ (r : Bool × W × Session). Q r.1) (is_empty (tail_of s.send_q) || s.closing) _ _ q
        (post_front-Preserves (tail_of s.send_q) w _ q)

  pub complete_send-Preserves :
      (ok : Bool) (bytes : ℕ) (w : W) (s : Session) → Q w → Q (complete_send env ok bytes w s).0
  unfolding complete_send on_send_complete
  complete_send-Preserves ok bytes w s q =
      if_both (λ (r : W × Session). Q r.0) (not ok || bytes == 0) _ _ (close-Preserves w _ q)
        (close_if-Preserves _ (send_complete_locked-Preserves w _ q))

  preserving : Keeps env (λ w s. Q w) (λ w s. Q w)
  preserving = record {
    with_stream = λ w s x q. q;
    with_packet = λ p w s q. k.packet p w s q;
    with_close = λ w s q. close-Preserves w s q;
    ends = λ w s q. q;
    posts = λ w s q. post_recv-Preserves w s q;
  }

  pub complete_recv-Preserves :
      (ok : Bool) (bytes : List ℕ) (w : W) (s : Session) (t : W × Session)
      → Q w
      → complete_recv env ok bytes w s ≡ some t
      → Q t.0
  unfolding complete_recv
  complete_recv-Preserves ok bytes w s t q e =
      let s1 = record s { pending_recv = s.pending_recv - 1 } in
      let m =
        if not ok || is_empty bytes
        then some (close env w s1)
        else on_recv_complete env bytes w s1 in
      let (r, h, i) = bind-some m _ t e in
      along_some (λ (u : W × Session). Q u.0) i
        (elim (if-cases (not ok || is_empty bytes) _ _ (some r) h) [
          | inl (c, j) ↦ along_some (λ (u : W × Session). Q u.0) j (close-Preserves w s1 q)
          | inr (c, j) ↦ on_recv_complete-keeps env _ _ preserving bytes w s1 r q j
        ])
