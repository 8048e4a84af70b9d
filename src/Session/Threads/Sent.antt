-- ===== src/Session/Threads/Sent.antt =====
-- The order of the buffers given to `WSASend`, in every state and under every interleaving of the
-- methods of ServerCore/Session.cpp.
use simple_server.Prelude.{ℕ, ◌+◌, ◌≡◌, refl, true, false, List, [], ◌++◌, arith}
use mathlib.Core.Path.{subst}
use simple_server.SendBuffer.{SendBuffer}
use simple_server.Session.Threads.{
  Shared, Action, Round, break_off, malformed, handled, try_recv, retain_recv, call_recv, try_send,
  lock_send, try_front, retain_front, call_send, give_up, lock_complete, enter_recv, read_packet,
  after_handler, try_close, clear_queue, notify, drop_ref, perform, release_shared, recv_worker,
  send_worker, System, new_system, Step, goes_on, sends, closes, recv_completes, send_completes,
  Reach, started, next,
}
use simple_server.Session.Threads.Sums.{
  total, armed, unsure, completing, clearing, others, before_action, after_action,
}
use simple_server.Session.Threads.Kept.{IsShared, after_round-sum}
use simple_server.Session.Threads.Invariant.{Reach-IsShared}
use simple_server.Session.Threads.Order.{
  IsInOrder, InOrder, Orders, behind, lock_send-Orders, try_front-Orders, retain_front-Orders,
  call_send-Orders, give_up-Orders, lock_complete-Orders, try_close-Orders, clear_queue-Orders,
}

round-InOrder :
    (r : Round) (s : Shared) (rest : (Action → ℕ) → ℕ)
    → IsInOrder s (λ w. w read_packet + rest w)
    → InOrder rest (perform read_packet (record { up = true; round = r }) s)
unfolding perform
round-InOrder break_off s rest o = ground arith
round-InOrder malformed s rest o = ground arith
round-InOrder (handled bs ok) s rest o =
    let none_of = λ (w : Action → ℕ). after_round-sum w bs ok in
    ground (
      arith,
      none_of armed (λ b. refl) refl refl,
      none_of unsure (λ b. refl) refl refl,
      none_of completing (λ b. refl) refl refl,
      none_of clearing (λ b. refl) refl refl,
    )

read_packet-Orders : Orders read_packet
unfolding perform
read_packet-Orders a s rest v o = round-InOrder a.round s rest o

abbrev IsLight : Action → Type 0
IsLight try_recv = Unit {0}
IsLight retain_recv = Unit
IsLight call_recv = Unit
IsLight (try_send b) = Unit
IsLight enter_recv = Unit
IsLight after_handler = Unit
IsLight notify = Unit
IsLight drop_ref = Unit
IsLight _ = ⊥

-- An action that leaves the queue, the flags and the lock alone.
light-Orders : (x : Action) → IsLight x → Orders x
unfolding perform release_shared
light-Orders try_recv l a s rest v o = ground arith
light-Orders retain_recv l a s rest v o = ground arith
light-Orders call_recv l a s rest v o = ground arith
light-Orders (try_send b) l a s rest v o = ground arith
light-Orders enter_recv l a s rest v o = ground arith
light-Orders after_handler l a s rest v o = ground arith
light-Orders notify l a s rest v o = ground arith
light-Orders drop_ref l a s rest v o = ground arith
light-Orders _ l a s rest v o = absurd l

perform-Orders : (x : Action) → Orders x
perform-Orders x = elim x as Orders [
  | lock_send b ↦ lock_send-Orders b
  | try_front ↦ try_front-Orders
  | retain_front ↦ retain_front-Orders
  | call_send ↦ call_send-Orders
  | give_up ↦ give_up-Orders
  | lock_complete ↦ lock_complete-Orders
  | read_packet ↦ read_packet-Orders
  | try_close ↦ try_close-Orders
  | clear_queue ↦ clear_queue-Orders
  | try_recv ↦ light-Orders try_recv tt
  | retain_recv ↦ light-Orders retain_recv tt
  | call_recv ↦ light-Orders call_recv tt
  | try_send b ↦ light-Orders (try_send b) tt
  | enter_recv ↦ light-Orders enter_recv tt
  | after_handler ↦ light-Orders after_handler tt
  | notify ↦ light-Orders notify tt
  | drop_ref ↦ light-Orders drop_ref tt
]

Step-IsInOrder :
    {from to : System}
    → Step from to
    → IsShared from.shared (total from.threads)
    → IsInOrder from.shared (total from.threads)
    → IsInOrder to.shared (total to.threads)
unfolding recv_worker send_worker
Step-IsInOrder {from} (goes_on before after holds x todo a new s e p) v o =
    let rest = others before todo after in
    let v2 = before_action (IsShared from.shared) from.threads before holds x todo after e v in
    let o2 = before_action (IsInOrder from.shared) from.threads before holds x todo after e o in
    after_action (IsInOrder s) before holds new todo after
      (subst (InOrder rest) p (perform-Orders x a from.shared rest v2 o2))
Step-IsInOrder {from} (sends b) v o = ground arith
Step-IsInOrder {from} closes v o = ground arith
Step-IsInOrder {from} (recv_completes true h) v o = ground arith
Step-IsInOrder {from} (recv_completes false h) v o = ground arith
Step-IsInOrder {from} (send_completes true h) v o = ground arith
Step-IsInOrder {from} (send_completes false h) v o = ground arith

new_system-IsInOrder : IsInOrder new_system.shared (total new_system.threads)
unfolding new_system
new_system-IsInOrder = record {
  exact = λ u. refl;
  rest = [];
  beginning = refl;
  armed_first = λ h. absurd (omega arith);
  unsure_first = λ c h. refl;
  idle_first = λ c h. refl;
  at_front = λ u h. absurd (cc);
  in_flight = λ u h. absurd (omega arith);
  one_clear = omega arith;
}

Reach-IsInOrder : {t : System} → Reach t → IsInOrder t.shared (total t.threads)
Reach-IsInOrder started = new_system-IsInOrder
Reach-IsInOrder (next r st) = Step-IsInOrder st (Reach-IsShared r) (Reach-IsInOrder r)

-- Whichever threads send at once and whatever is popped or cleared meanwhile, the buffers given to
-- `WSASend` are the first of those put into the queue, in the order of the queue, none twice. While
-- the session is open, what has not been given yet stands in the queue, nothing left out.
pub Reach-in_order :
    {t : System}
    → Reach t
    → ((rest : List SendBuffer) × (t.shared.sent ++ rest ≡ t.shared.accepted))
      × (t.shared.closing ≡ false → t.shared.sent ++ behind t.shared ≡ t.shared.accepted)
Reach-in_order {t} r =
    let o = Reach-IsInOrder r in ((o.rest, o.beginning), λ c. o.exact (λ d. absurd (cc)))
