-- ===== src/Session/Threads/Ends.antt =====
-- How many actions the threads of a session have before them, as long as no packet comes: apart from
-- the loop of `OnRecvComplete` the methods of ServerCore/Session.cpp have no loop, and a thread that
-- waits for the lock does nothing.
use simple_server.Prelude.{
  ℕ, suc, ◌+◌, ◌≤◌, ◌≡◌, Bool, true, Option, none, some, List, ◌∷◌, ◌++◌, arith,
}
use mathlib.Core.Path.{subst}
use simple_server.Session.Threads.{
  Shared, Action, Reply, Round, break_off, malformed, handled, try_recv, retain_recv, call_recv,
  try_send, lock_send, try_front, retain_front, call_send, give_up, lock_complete, enter_recv,
  read_packet, after_handler, try_close, clear_queue, notify, drop_ref, perform, Thread, thread,
  System,
}
use simple_server.Session.Threads.Sums.{sum, total, total-middle, total-performed}

-- How many actions an action can lead to, itself included, while no packet comes.
abbrev pub rank : Action → ℕ
rank drop_ref = 1
rank notify = 1
rank clear_queue = 1
rank try_close = 4
rank give_up = 5
rank call_send = 7
rank retain_front = 8
rank try_front = 9
rank (lock_send b) = 10
rank (try_send b) = 11
rank lock_complete = 10
rank call_recv = 6
rank retain_recv = 7
rank try_recv = 8
rank read_packet = 9
rank after_handler = 10
rank enter_recv = 10

abbrev pub NoPacket : Round → Type 0
NoPacket break_off = Unit {0}
NoPacket malformed = Unit
NoPacket (handled bs ok) = ⊥

abbrev Lighter : ℕ → Option (List Action × Shared) → Type 0
Lighter n none = Unit {0}
Lighter n (some (new, s)) = suc (sum rank new) ≤ n

round-Lighter :
    (r : Round) (s : Shared)
    → NoPacket r
    → Lighter 9 (perform read_packet (record { up = true; round = r }) s)
unfolding perform
round-Lighter break_off s h = omega arith
round-Lighter malformed s h = omega arith
round-Lighter (handled bs ok) s h = absurd h

perform-Lighter :
    (x : Action) (a : Reply) (s : Shared) → NoPacket a.round → Lighter (rank x) (perform x a s)
unfolding perform
perform-Lighter read_packet a s h = round-Lighter a.round s h
perform-Lighter x a s h = ground arith

-- A schedule of `n` actions of the threads that are there, in any order, while no packet comes.
pub data Schedule : ℕ → System → System → Type 0 where
  over : {t : System} → Schedule 0 t t
  action :
      {t u : System} {n : ℕ} (before after : List Thread) (holds : Bool) (x : Action)
      (todo : List Action) (a : Reply) (new : List Action) (s : Shared)
      → t.threads ≡ before ++ (thread holds (x ∷ todo) ∷ after)
      → NoPacket a.round
      → perform x a t.shared ≡ some (new, s)
      → Schedule n
          (record { shared = s; threads = before ++ (thread holds (new ++ todo) ∷ after) })
          u
      → Schedule (suc n) t u

lighter :
    (n : ℕ) (m : Option (List Action × Shared)) (new : List Action) (s : Shared)
    → m ≡ some (new, s)
    → Lighter n m
    → suc (sum rank new) ≤ n
lighter n m new s e l = subst (Lighter n) e l

-- However the threads that are there are scheduled, they do no more actions than the sum of the ranks
-- of what they have to do, while no further thread starts and no packet is handed to the handler.
pub Schedule-ends :
    {n : ℕ} {t u : System} → Schedule n t u → n + total u.threads rank ≤ total t.threads rank
Schedule-ends over = omega arith
Schedule-ends {n = suc n} {t} {u} (action before after holds x todo a new s e h p r) =
    let less = lighter (rank x) (perform x a t.shared) new s p (perform-Lighter x a t.shared h) in
    let rest = Schedule-ends r in
    let old : total t.threads rank ≡ rank x + sum rank todo + total (before ++ after) rank =
      (let m = total-middle before (thread holds (x ∷ todo)) after rank in
        rw e (omega (arith, m))) in
    let now = total-performed before holds new todo after rank in
    omega (arith, less, rest, old, now)
