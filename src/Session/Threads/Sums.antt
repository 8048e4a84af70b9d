-- ===== src/Session/Threads/Sums.antt =====
-- What the threads of a session have still to do, added up (ServerCore/Session.cpp).
use mathlib.Core.Path.{subst}
use simple_server.Prelude.{ℕ, ◌+◌, ◌≡◌, refl, sym, Bool, List, [], ◌∷◌, ◌++◌, arith}
use simple_server.Session.Threads.{
  Action, try_front, retain_front, call_send, give_up, lock_complete, clear_queue, notify,
  enter_recv, read_packet, after_handler, try_recv, retain_recv, call_recv, drop_ref, Thread,
  thread,
}

-- How many references an action is going to drop, or to hand to the system.
abbrev pub owed : Action → ℕ
owed call_recv = 1
owed call_send = 1
owed drop_ref = 1
owed _ = 0

-- Past the test of `PostSendFront_NoLock`, and on the way to `WSASend`.
abbrev pub armed : Action → ℕ
armed retain_front = 1
armed call_send = 1
armed _ = 0

-- Under the lock, but not on the way to `WSASend`.
abbrev pub unsure : Action → ℕ
unsure try_front = 1
unsure give_up = 1
unsure _ = 0

-- A send has completed, and its buffer is still in the queue.
abbrev pub completing : Action → ℕ
completing lock_complete = 1
completing _ = 0

-- `Close` has not cleared the queue yet, and it has not called the service yet.
abbrev pub clearing : Action → ℕ
clearing clear_queue = 1
clearing _ = 0

abbrev pub telling : Action → ℕ
telling notify = 1
telling _ = 0

-- On the way from a completed receive, or from `Start`, to the next `WSARecv`.
abbrev pub receiving : Action → ℕ
receiving enter_recv = 1
receiving read_packet = 1
receiving after_handler = 1
receiving try_recv = 1
receiving retain_recv = 1
receiving call_recv = 1
receiving _ = 0

-- The sum over what one thread has to do, and over all threads.
abbrev pub sum : (Action → ℕ) → List Action → ℕ
sum w [] = 0
sum w (x ∷ xs) = w x + sum w xs

abbrev pub total : List Thread → (Action → ℕ) → ℕ
total [] w = 0
total (t ∷ ts) w = sum w t.todo + total ts w

pub sum-append : (w : Action → ℕ) (xs ys : List Action) → sum w (xs ++ ys) ≡ sum w xs + sum w ys
sum-append w [] ys = omega arith
sum-append w (x ∷ xs) ys = omega (arith, sum-append w xs ys)

-- One thread, and the rest.
pub total-middle :
    (before : List Thread) (t : Thread) (after : List Thread) (w : Action → ℕ)
    → total (before ++ (t ∷ after)) w ≡ sum w t.todo + total (before ++ after) w
total-middle [] t after w = refl
total-middle (u ∷ before) t after w = omega (arith, total-middle before t after w)

-- The thread after one action, and the rest.
pub total-performed :
    (before : List Thread) (holds : Bool) (new todo : List Action) (after : List Thread)
    (w : Action → ℕ)
    → total (before ++ (thread holds (new ++ todo) ∷ after)) w
      ≡ sum w new + (sum w todo + total (before ++ after) w)
total-performed before holds new todo after w =
    omega (arith, total-middle before (thread holds (new ++ todo)) after w, sum-append w new todo)

-- What all have still to do but for the next action of one thread.
abbrev pub others : List Thread → List Action → List Thread → (Action → ℕ) → ℕ
others before todo after w = sum w todo + total (before ++ after) w

-- What holds of the sums before an action, with that action taken out; and after it.
pub before_action :
    (P : ((Action → ℕ) → ℕ) → Type 0) (threads before : List Thread) (holds : Bool) (x : Action)
    (todo : List Action) (after : List Thread)
    → threads ≡ before ++ (thread holds (x ∷ todo) ∷ after)
    → P (total threads)
    → P (λ w. w x + others before todo after w)
before_action P threads before holds x todo after e v =
    let split : (w : Action → ℕ) → total threads w ≡ w x + others before todo after w = λ w.
      (let m = total-middle before (thread holds (x ∷ todo)) after w in rw e (omega (arith, m))) in
    subst P (λ i w. split w i) v

pub after_action :
    (P : ((Action → ℕ) → ℕ) → Type 0) (before : List Thread) (holds : Bool) (new todo : List Action)
    (after : List Thread)
    → P (λ w. sum w new + others before todo after w)
    → P (total (before ++ (thread holds (new ++ todo) ∷ after)))
after_action P before holds new todo after v =
    subst P (λ i w. sym (total-performed before holds new todo after w) i) v
