-- ===== src/Session/Reach.antt =====
-- Every state that a session can reach, under any interleaving of completions, of calls from other
-- threads and of `Close`: ServerCore/Session.cpp and NetService.cpp.
use simple_server.Prelude.{ℕ, ◌<◌, ◌≡◌, ◌↔◌, Bool, true, Option, some, List}
use simple_server.SendBuffer.{SendBuffer}
use simple_server.Session.{
  Session, Env, new_session, close, start, close_if, enqueue_locked, enqueue_send, complete_recv,
  complete_send,
}
use simple_server.Session.Lifetime.{deleted_idle, deleted_of_idle}
use simple_server.Session.Handling.{IsOrderly, IsHandled, complete_recv-IsHandled}
use simple_server.Session.Calls.{
  complete_send-IsHandled, enqueue_send-IsHandled, late_enqueue-IsHandled, close-IsHandled,
  start-IsHandled,
}

-- What can happen to a session: a posted operation completes, another thread sends (with `late`, one
-- that read `_closing` before a `Close` ran), or another thread closes it.
pub data Step {W : Type 0} (env : Env W) (from to : W × Session) : Type 0 where
  recv_completes :
      (ok : Bool) (bytes : List ℕ)
      → 0 < from.1.pending_recv
      → complete_recv env ok bytes from.0 from.1 ≡ some to
      → Step env from to
  send_completes :
      (ok : Bool) (bytes : ℕ)
      → 0 < from.1.pending_send
      → to ≡ complete_send env ok bytes from.0 from.1
      → Step env from to
  sends : (b : Option SendBuffer) → to ≡ enqueue_send env b from.0 from.1 → Step env from to
  sends_late :
      (b : SendBuffer) → to ≡ close_if env (enqueue_locked env b from.0 from.1) → Step env from to
  closes : to ≡ close env from.0 from.1 → Step env from to

pub data Reach {W : Type 0} (env : Env W) (w : W) : W × Session → Type 0 where
  started : Reach env w (start env w new_session)
  next : {from to : W × Session} → Reach env w from → Step env from to → Reach env w to

module _ {W : Type 0} (env : Env W) (orderly : IsOrderly env) where
  Step-IsHandled :
      {from to : W × Session} → Step env from to → IsHandled 0 from.1 → IsHandled 0 to.1
  Step-IsHandled {from} {to} (recv_completes ok bytes p e) v =
      complete_recv-IsHandled env orderly ok bytes from.0 from.1 to v p e
  Step-IsHandled {from} {to} (send_completes ok bytes p e) v =
      rw e (complete_send-IsHandled env orderly ok bytes from.0 from.1 v p)
  Step-IsHandled {from} {to} (sends b e) v =
      rw e (enqueue_send-IsHandled env orderly b from.0 from.1 v)
  Step-IsHandled {from} {to} (sends_late b e) v =
      rw e (late_enqueue-IsHandled env orderly b from.0 from.1 v)
  Step-IsHandled {from} {to} (closes e) v = rw e (close-IsHandled env orderly from.0 from.1 v)

  -- If the handler and the callback leave the session in order, then in every reachable state the
  -- count is exact, the queue agrees with the send in flight and is within its bound, and at most one
  -- receive is posted.
  pub Reach-IsHandled : (w : W) {t : W × Session} → Reach env w t → IsHandled 0 t.1
  Reach-IsHandled w started = start-IsHandled env orderly w
  Reach-IsHandled w (next r st) = Step-IsHandled st (Reach-IsHandled w r)

  -- If the handler and the callback leave the session in order, a reachable session is deleted exactly
  -- when it is closed and nothing is posted for it.
  pub Reach-deleted :
      (w : W) {t : W × Session}
      → Reach env w t
      → (t.1.deleted ≡ true)
        ↔ ((t.1.closing ≡ true) × (t.1.pending_recv ≡ 0) × (t.1.pending_send ≡ 0))
  Reach-deleted w {t} r =
      let v = Reach-IsHandled w r in
      (
        (λ d. (let i = deleted_idle v.counted d in (i.3, i.1, i.2))),
        λ i. deleted_of_idle v.counted i.0 i.1 i.2,
      )
