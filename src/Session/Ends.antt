-- ===== src/Session/Ends.antt =====
-- How a closed session ends: the rounds of `NetService::WorkerLoop` (ServerCore/NetService.cpp) that
-- take the completions of the operations it still had posted.
use simple_server.Prelude.{
  ℕ, ◌+◌, ◌-◌, ◌≡◌, refl, sym, Bool, true, Option, some, List, [], ◌∷◌, arith, ◌>>=◌,
}
use simple_server.Session.{
  Session, Env, release, close, send_complete_locked, on_send_complete, close_if, on_recv_complete,
  complete_recv, complete_send,
}
use simple_server.Session.Handling.{IsOrderly}
use simple_server.Session.Reach.{Reach, next, recv_completes, send_completes, Reach-deleted}

-- The completion of a receive with its bytes, or of a send with their number; `true` if it succeeded.
pub data Answer : Type 0 where
  received : Bool → List ℕ → Answer
  transmitted : Bool → ℕ → Answer

unfoldable pub receives : List Answer → ℕ
receives [] = 0
receives (received ok bytes ∷ rest) = 1 + receives rest
receives (transmitted ok bytes ∷ rest) = receives rest

unfoldable pub transmits : List Answer → ℕ
transmits [] = 0
transmits (received ok bytes ∷ rest) = transmits rest
transmits (transmitted ok bytes ∷ rest) = 1 + transmits rest

module _ {W : Type 0} (env : Env W) where
  unfoldable pub answer : Answer → W → Session → Option (W × Session)
  answer (received ok bytes) w s = complete_recv env ok bytes w s
  answer (transmitted ok bytes) w s = some (complete_send env ok bytes w s)

  -- The rounds for one session, in the order in which its completions come.
  unfoldable pub answers : List Answer → W → Session → Option (W × Session)
  answers [] w s = some (w, s)
  answers (a ∷ rest) w s = answer a w s >>= λ r. answers rest r.0 r.1

  close_noop : (w : W) (s : Session) → s.closing ≡ true → close env w s ≡ (w, s)
  unfolding close
  close_noop w s c = ground arith

  on_recv_complete_noop :
      (bytes : List ℕ) (w : W) (s : Session)
      → s.closing ≡ true
      → on_recv_complete env bytes w s ≡ some (w, s)
  unfolding on_recv_complete
  on_recv_complete_noop bytes w s c = ground arith

  -- A receive that completes on a closed session only drops its reference.
  complete_recv_closed :
      (ok : Bool) (bytes : List ℕ) (w : W) (s : Session)
      → s.closing ≡ true
      → complete_recv env ok bytes w s
        ≡ some (w, release (record s { pending_recv = s.pending_recv - 1 }))
  unfolding complete_recv
  complete_recv_closed ok bytes w s c =
      let s1 = record s { pending_recv = s.pending_recv - 1 } in
      ground (arith, close_noop w s1 c, on_recv_complete_noop bytes w s1 c)

  -- So does a send, and nothing is sent again.
  complete_send_closed :
      (ok : Bool) (bytes : ℕ) (w : W) (s : Session)
      → s.closing ≡ true
      → let t = complete_send env ok bytes w s in
        (t.1.closing ≡ true)
        × (t.1.pending_recv ≡ s.pending_recv)
        × (t.1.pending_send ≡ s.pending_send - 1)
  unfolding complete_send on_send_complete send_complete_locked close_if release
  complete_send_closed ok bytes w s c =
      ground (arith, close_noop w (record s { pending_send = s.pending_send - 1 }) c)

  -- If the handler and the callback leave the session in order, then once a reachable session is closed,
  -- and as many receives and sends complete as are posted for it, in any order and with any results,
  -- it is deleted.
  pub answers-deleted :
      (orderly : IsOrderly env) (w : W) (ans : List Answer) (t : W × Session)
      → Reach env w t
      → t.1.closing ≡ true
      → receives ans ≡ t.1.pending_recv
      → transmits ans ≡ t.1.pending_send
      → (u : W × Session) × (answers ans t.0 t.1 ≡ some u) × (u.1.deleted ≡ true)
  unfolding answers answer receives transmits
  answers-deleted orderly w [] t r c p q =
      (t, refl, (Reach-deleted env orderly w r).1 (c, sym p, sym q))
  answers-deleted orderly w (received ok bytes ∷ rest) t r c p q =
      let s1 = release (record t.1 { pending_recv = t.1.pending_recv - 1 }) in
      let e = complete_recv_closed ok bytes t.0 t.1 c in
      rw e (
        answers-deleted orderly w rest (t.0, s1) (next r (recv_completes ok bytes (omega arith) e))
          (unfold release in c) (unfold release in omega arith) (unfold release in q))
  answers-deleted orderly w (transmitted ok bytes ∷ rest) t r c p q =
      let t1 = complete_send env ok bytes t.0 t.1 in
      let e = complete_send_closed ok bytes t.0 t.1 c in
      answers-deleted orderly w rest t1 (next r (send_completes ok bytes (omega arith) refl)) e.0
        (omega arith) (omega arith)
