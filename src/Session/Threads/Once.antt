-- ===== src/Session/Threads/Once.antt =====
-- When a session is deleted just once: the rule that its callers have to keep, and what it gives
-- (ServerCore/Session.cpp, NetService.cpp).
use simple_server.Prelude.{
  ℕ, ◌+◌, ◌<◌, ◌≡◌, refl, ◌⊎◌, inl, inr, true, Option, none, some, List, ◌∷◌, ◌++◌, arith, ◌==◌,
  if◌then◌else◌,
}
use mathlib.Core.Path.{subst}
use simple_server.Session.Threads.{
  Shared, Action, Reply, Round, break_off, malformed, handled, read_packet, perform, Thread, thread,
  System, new_system, Step, goes_on, sends, closes, recv_completes, send_completes, Reach, started,
  next, IsTimelyStep, IsTimely,
}
use simple_server.Session.Threads.Sums.{owed, sum, total, total-middle, others, before_action}
use simple_server.Session.Threads.Kept.{IsShared}
use simple_server.Session.Threads.Held.{drops-owed, AllHold, middle-DropsLast, Reach-AllHold}
use simple_server.Session.Threads.Invariant.{Reach-IsShared}

-- Deleted once if the count has come to nothing, and otherwise not at all.
abbrev pub IsOnce : Shared → Type 0
IsOnce s = s.deletions ≡ (if s.ref_count == 0 then 1 else 0)

abbrev After : Option (List Action × Shared) → Type 0
After none = Unit {0}
After (some (new, s)) = IsOnce s

round-IsOnce :
    (r : Round) (s : Shared)
    → IsOnce s
    → After (perform read_packet (record { up = true; round = r }) s)
unfolding perform
round-IsOnce break_off s h = h
round-IsOnce malformed s h = h
round-IsOnce (handled bs ok) s h = h

perform-IsOnce :
    (x : Action) (a : Reply) (s : Shared) (rest : (Action → ℕ) → ℕ)
    → (0 < owed x + rest owed) ⊎ (s.deletions ≡ 0)
    → IsShared s (λ w. w x + rest w)
    → IsOnce s
    → After (perform x a s)
unfolding perform
perform-IsOnce read_packet a s rest live v h = round-IsOnce a.round s h
perform-IsOnce x a s rest live v h = let c = v.counted in ground arith

Step-IsOnce :
    {from to : System}
    → (st : Step from to) → IsTimelyStep st
    → AllHold from.threads
    → IsShared from.shared (total from.threads)
    → IsOnce from.shared
    → IsOnce to.shared
unfolding IsTimelyStep
Step-IsOnce {from} (goes_on before after holds x todo a new s e p) live hold v h =
    let rest = others before todo after in
    let v2 = before_action (IsShared from.shared) from.threads before holds x todo after e v in
    let owing : (0 < owed x + rest owed) ⊎ (from.shared.deletions ≡ 0) = elim live [
      | inl held ↦
          let d = middle-DropsLast before (thread holds (x ∷ todo)) after (rw e at hold) held in
          inl (omega (arith, drops-owed x todo d))
      | inr d ↦ inr d
    ] in
    subst After p (perform-IsOnce x a from.shared rest owing v2 h)
Step-IsOnce (sends b) live hold v h = h
Step-IsOnce closes live hold v h = h
Step-IsOnce (recv_completes ok l) live hold v h = h
Step-IsOnce (send_completes ok l) live hold v h = h

-- As long as no thread from outside runs on after the deletion, the session is deleted exactly once,
-- when the count of the references has come to nothing, and not before.
pub Reach-IsOnce : {t : System} (r : Reach t) → IsTimely r → IsOnce t.shared
unfolding IsTimely new_system
Reach-IsOnce started timely = refl
Reach-IsOnce (next r st) (timely, live) =
    Step-IsOnce st live (Reach-AllHold r) (Reach-IsShared r) (Reach-IsOnce r timely)

-- As long as no thread from outside runs on after the deletion: where a worker has still something to do, or a receive or a send is posted, the session is not
-- deleted: no worker, and no completion, ever finds the object gone.
pub worker-alive :
    {t : System} (before : List Thread) (x : Action) (p : List Action) (after : List Thread)
    → (r : Reach t) → IsTimely r
    → (t.threads ≡ before ++ (thread true (x ∷ p) ∷ after))
      ⊎ (0 < t.shared.pending_recv + t.shared.pending_send)
    → t.shared.deletions ≡ 0
worker-alive {t} before x p after r timely at_work =
    let v = Reach-IsShared r in
    let once = Reach-IsOnce r timely in
    elim at_work [
      | inl e ↦
          let hold = rw e at (Reach-AllHold r) in
          let d = middle-DropsLast before (thread true (x ∷ p)) after hold refl in
          let owing = drops-owed x p d in
          let all : total t.threads owed ≡ sum owed (x ∷ p) + total (before ++ after) owed =
            rw e (total-middle before (thread true (x ∷ p)) after owed) in
          ground arith
      | inr posted ↦ ground arith
    ]
