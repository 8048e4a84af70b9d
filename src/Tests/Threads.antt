-- ===== src/Tests/Threads.antt =====
-- Threads that run the methods of one session at once.
use simple_server.Prelude.{
  ℕ, ◌+◌, ◌≤◌, ◌<◌, ◌≡◌, refl, ◌↔◌, inl, inr, Bool, true, false, Option, none, some, List, [], ◌∷◌,
  ◌++◌, arith,
}
use simple_server.SendBuffer.{SendBuffer}
use simple_server.Session.Lifetime.{count}
use simple_server.Session.Threads.{
  Shared, Action, Reply, break_off, try_recv, retain_recv, call_recv, try_send, lock_send,
  try_front, retain_front, call_send, try_close, clear_queue, notify, drop_ref, enter_recv, perform,
  release_shared, push, pop, recv_worker, Thread, thread, System, new_system, goes_on, sends,
  closes, recv_completes, Reach, started, next, IsTimelyStep, IsTimely,
}
use simple_server.Session.Threads.Ends.{over, action, rank, Schedule}
use simple_server.Session.Threads.Sums.{total}
use simple_server.Session.Threads.Kept.{IsShared}
use simple_server.Session.Threads.Invariant.{Reach-IsShared}
use simple_server.Session.Threads.Done.{AllDone, done-freed}
use simple_server.Session.Threads.Once.{IsOnce, Reach-IsOnce, worker-alive}
use simple_server.Session.Threads.Finish.{Schedule-finishes}
use simple_server.Session.Threads.Sent.{Reach-in_order}
use simple_server.Session.Threads.Order.{behind}
use simple_server.Session.Threads.Progress.{GoesOn, unfinished-GoesOn}
use simple_server.Tests.Network.{hello}

abbrev yes : Reply
yes = record { up = true; round = break_off }

-- A state, with the way to it.
abbrev Reached : Type 0
Reached = (t : System) × Reach t

abbrev outcome : Option (List Action × Shared) → List Action × Shared
outcome none = ([], new_system.shared)
outcome (some r) = r

-- One action of a thread that stands behind `before`.
abbrev acts_on :
    (a : Reply) (before : List Thread) (holds : Bool) (x : Action) (todo : List Action)
    (after : List Thread) (r : Reached)
    → r.0.threads ≡ before ++ (thread holds (x ∷ todo) ∷ after)
    → let out = outcome (perform x a r.0.shared) in
      perform x a r.0.shared ≡ some (out.0, out.1) → Reached
acts_on a before holds x todo after (t, r) e h =
    let out = outcome (perform x a t.shared) in
    (
      record { shared = out.1; threads = before ++ (thread holds (out.0 ++ todo) ∷ after) },
      next r (goes_on before after holds x todo a out.0 out.1 e h),
    )

abbrev acts :
    (before : List Thread) (holds : Bool) (x : Action) (todo : List Action) (after : List Thread)
    (r : Reached)
    → r.0.threads ≡ before ++ (thread holds (x ∷ todo) ∷ after)
    → let out = outcome (perform x yes r.0.shared) in
      perform x yes r.0.shared ≡ some (out.0, out.1) → Reached
acts = acts_on yes

abbrev first : Reached
first = (new_system, started)

-- Another thread sends a buffer while `Start` runs: up to the lock, to `WSASend`, and behind it.
abbrev asked : Reached
asked = (_, next first.1 (sends hello))

abbrev let_in : Reached
unfolding perform new_system release_shared push pop recv_worker
let_in = acts [] false (try_send hello) [] (thread false (try_recv ∷ []) ∷ []) asked refl refl

abbrev queued : Reached
unfolding perform new_system release_shared push pop recv_worker
queued = acts [] false (lock_send hello) [] (thread false (try_recv ∷ []) ∷ []) let_in refl refl

abbrev chosen : Reached
unfolding perform new_system release_shared push pop recv_worker
chosen = acts [] false try_front [] (thread false (try_recv ∷ []) ∷ []) queued refl refl

abbrev retained : Reached
unfolding perform new_system release_shared push pop recv_worker
retained = acts [] false retain_front [] (thread false (try_recv ∷ []) ∷ []) chosen refl refl

abbrev given : Reached
unfolding perform new_system release_shared push pop recv_worker
given = acts [] false call_send [] (thread false (try_recv ∷ []) ∷ []) retained refl refl

Reach-IsShared_example : IsShared given.0.shared (total given.0.threads)
Reach-IsShared_example = Reach-IsShared given.1

Reach-in_order_example :
    ((rest : List SendBuffer) × (given.0.shared.sent ++ rest ≡ given.0.shared.accepted))
    × (given.0.shared.closing ≡ false
        → given.0.shared.sent ++ behind given.0.shared ≡ given.0.shared.accepted)
Reach-in_order_example = Reach-in_order given.1

unfinished-GoesOn_example : GoesOn retained.0
unfolding perform new_system release_shared push pop retained
unfinished-GoesOn_example = unfinished-GoesOn retained.1 (omega arith)

-- `Start` runs to its end, and its receive completes.
abbrev tested : Reached
unfolding perform new_system release_shared push pop recv_worker
tested = acts [] false try_recv [] [] first refl refl

abbrev counted : Reached
unfolding perform new_system release_shared push pop recv_worker
counted = acts [] false retain_recv [] [] tested refl refl

abbrev posted : Reached
unfolding perform new_system release_shared push pop recv_worker
posted = acts [] false call_recv [] [] counted refl refl

abbrev taken_up : Reached
unfolding perform new_system release_shared push pop recv_worker
taken_up = (_, next posted.1 (recv_completes true (omega arith)))

taken_up-IsTimely : IsTimely taken_up.1
unfolding IsTimely IsTimelyStep perform new_system release_shared push pop recv_worker tested
    counted posted taken_up
taken_up-IsTimely = ((((tt, inr refl), inr refl), inr refl), tt)

worker-alive_example : taken_up.0.shared.deletions ≡ 0
unfolding perform new_system release_shared push pop recv_worker
worker-alive_example =
    worker-alive [] enter_recv (drop_ref ∷ []) (thread false [] ∷ []) taken_up.1 taken_up-IsTimely
      (inl refl)

-- `Start` runs to its end in three actions.
start-Schedule : Schedule 3 new_system posted.0
unfolding perform new_system release_shared push pop recv_worker
start-Schedule = action [] [] false try_recv [] yes _ _ refl tt refl (
    action [] [] false retain_recv [] yes _ _ refl tt refl
      (action [] [] false call_recv [] yes _ _ refl tt refl over))

Schedule-finishes_example :
    (m : ℕ) × (v : System) × Schedule m posted.0 v
    × AllDone v.threads
    × (3 + m ≤ total new_system.threads rank)
Schedule-finishes_example = Schedule-finishes started start-Schedule

-- Another thread closes the session before `Start` has tested `_closing`.
abbrev closed_1 : Reached
closed_1 = (_, next first.1 closes)

abbrev closed_2 : Reached
unfolding perform new_system release_shared push pop recv_worker
closed_2 = acts [] false try_close [] (thread false (try_recv ∷ []) ∷ []) closed_1 refl refl

abbrev closed_3 : Reached
unfolding perform new_system release_shared push pop recv_worker
closed_3 =
    acts [] false clear_queue (notify ∷ drop_ref ∷ []) (thread false (try_recv ∷ []) ∷ []) closed_2
      refl refl

abbrev closed_4 : Reached
unfolding perform new_system release_shared push pop recv_worker
closed_4 =
    acts [] false notify (drop_ref ∷ []) (thread false (try_recv ∷ []) ∷ []) closed_3 refl refl

abbrev closed_5 : Reached
unfolding perform new_system release_shared push pop recv_worker
closed_5 = acts (thread false (drop_ref ∷ []) ∷ []) false try_recv [] [] closed_4 refl refl

abbrev closed_6 : Reached
unfolding perform new_system release_shared push pop recv_worker
closed_6 = acts [] false drop_ref [] (thread false [] ∷ []) closed_5 refl refl

all_done : AllDone closed_6.0.threads
unfolding AllDone perform new_system release_shared push pop closed_6
all_done = (refl, (refl, tt))

done-freed_example :
    ((0 < closed_6.0.shared.deletions) ↔ (closed_6.0.shared.closing ≡ true))
    × (closed_6.0.shared.notices ≡ count closed_6.0.shared.closing)
unfolding perform new_system release_shared push pop closed_6
done-freed_example = done-freed closed_6.1 all_done refl refl

closed_6-IsTimely : IsTimely closed_6.1
unfolding IsTimely IsTimelyStep perform new_system release_shared push pop recv_worker closed_1
    closed_2 closed_3 closed_4 closed_5 closed_6
closed_6-IsTimely = (((((((tt, tt), inr refl), inr refl), inr refl), inr refl), inr refl))

Reach-IsOnce_example : IsOnce closed_6.0.shared
Reach-IsOnce_example = Reach-IsOnce closed_6.1 closed_6-IsTimely

-- The same when `Start` has tested `_closing` before: the object is gone, and `Start` goes on.
abbrev late_1 : Reached
unfolding perform new_system
late_1 = (_, next tested.1 closes)

abbrev late_2 : Reached
unfolding perform new_system release_shared push pop recv_worker
late_2 = acts [] false try_close [] (thread false (retain_recv ∷ []) ∷ []) late_1 refl refl

abbrev late_3 : Reached
unfolding perform new_system release_shared push pop recv_worker
late_3 =
    acts [] false clear_queue (notify ∷ drop_ref ∷ []) (thread false (retain_recv ∷ []) ∷ []) late_2
      refl refl

abbrev late_4 : Reached
unfolding perform new_system release_shared push pop recv_worker
late_4 =
    acts [] false notify (drop_ref ∷ []) (thread false (retain_recv ∷ []) ∷ []) late_3 refl refl

abbrev late_5 : Reached
unfolding perform new_system release_shared push pop recv_worker
late_5 = acts [] false drop_ref [] (thread false (retain_recv ∷ []) ∷ []) late_4 refl refl

start_outlived :
    (late_5.0.shared.deletions ≡ 1)
    × (late_5.0.threads ≡ thread false [] ∷ thread false (retain_recv ∷ []) ∷ [])
unfolding perform new_system release_shared push pop late_5
start_outlived = (refl, refl)

-- Its `AddRef`, a `WSARecv` that fails, and its `Release` delete the object a second time.
abbrev no : Reply
no = record { up = false; round = break_off }

abbrev late_6 : Reached
unfolding perform new_system release_shared push pop recv_worker
late_6 = acts (thread false [] ∷ []) false retain_recv [] [] late_5 refl refl

abbrev late_7 : Reached
unfolding perform new_system release_shared push pop recv_worker
late_7 = acts_on no (thread false [] ∷ []) false call_recv [] [] late_6 refl refl

abbrev late_8 : Reached
unfolding perform new_system release_shared push pop recv_worker
late_8 = acts (thread false [] ∷ []) false drop_ref (try_close ∷ []) [] late_7 refl refl

start_deletes_again : late_8.0.shared.deletions ≡ 2
unfolding perform new_system release_shared push pop late_8
start_deletes_again = refl
