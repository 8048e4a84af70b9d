-- ===== src/Session/Threads/Progress.antt =====
-- Waiting for `_sendLock` of ServerCore/Session.h: which thread can go on while it is held.
use simple_server.Prelude.{
  ℕ, ◌+◌, ◌<◌, ◌≡◌, refl, ap, ◌≢◌, inl, inr, Bool, true, false, none, some, List, [], ◌∷◌, ◌++◌,
  arith, ltb, ltb→lt, ltb-false→le, Bool-cases, Option-cases,
}
use simple_server.Session.Threads.{
  Shared, Action, Reply, perform, Thread, thread, System, Step, goes_on, Reach,
}
use simple_server.Session.Threads.Sums.{sum, total, armed, unsure}
use simple_server.Session.Threads.Invariant.{Reach-IsShared}
use simple_server.Session.Threads.Ordered.{IsOrdered, inside, AllOrdered, Reach-AllOrdered}

-- An action that can be done now, whatever the outside answers.
abbrev CanPerform : Action → Shared → Type 0
CanPerform x s =
    (a : Reply) → (new : List Action) × (s' : Shared) × (perform x a s ≡ some (new, s'))

not_waiting : (x : Action) (s : Shared) → ((a : Reply) → perform x a s ≢ none) → CanPerform x s
not_waiting x s h a = elim (Option-cases (perform x a s)) [
  | inl e ↦ absurd (h a e)
  | inr (r, e) ↦ (r.0, r.1, e)
]

-- It can if the lock is free.
free-runs : (x : Action) (s : Shared) → s.locked ≡ false → (a : Reply) → perform x a s ≢ none
unfolding perform
free-runs x s o a h = ground arith

-- It can too if it is under the lock, or a `Release` before what is.
inside-runs :
    (x : Action) (p : List Action) (s : Shared)
    → IsOrdered (x ∷ p)
    → 0 < inside (x ∷ p)
    → (a : Reply) → perform x a s ≢ none
unfolding perform IsOrdered
inside-runs x p s (z, o) l a h = ground arith

-- A thread of a list that has some weight, and where it stands.
abbrev pub Found : List Thread → (List Action → Type 0) → Type 0
Found ts P =
    (before : List Thread) × (holds : Bool) × (x : Action) × (todo : List Action) × (after : List
      Thread)
    × (ts ≡ before ++ (thread holds (x ∷ todo) ∷ after))
    × P (x ∷ todo)

found_first :
    (holds : Bool) (p : List Action) (ts : List Thread) (w : Action → ℕ)
    → 0 < sum w p
    → Found (thread holds p ∷ ts) (λ q. 0 < sum w q)
found_first holds [] ts w l = absurd (omega arith)
found_first holds (x ∷ p) ts w l = ([], holds, x, p, ts, refl, l)

find_thread : (ts : List Thread) (w : Action → ℕ) → 0 < total ts w → Found ts (λ p. 0 < sum w p)
find_thread [] w h = absurd (omega arith)
find_thread (t ∷ ts) w h = elim (Bool-cases (ltb 0 (sum w t.todo))) [
  | inl weight ↦ found_first t.holds t.todo ts w (ltb→lt 0 (sum w t.todo) weight)
  | inr nothing ↦
      let z = ltb-false→le 0 (sum w t.todo) nothing in
      let (before, holds, x, todo, after, e, l) = find_thread ts w (omega (arith, h, z)) in
      (t ∷ before, holds, x, todo, after, ap (λ k. t ∷ k) e, l)
]

-- The next action of a thread is a step of the system, whatever the outside answers.
abbrev pub CanStep : System → List Thread → Bool → Action → List Action → List Thread → Type 0
CanStep t before holds x todo after =
    (a : Reply)
    → (new : List Action) × (s : Shared) × (perform x a t.shared ≡ some (new, s))
      × Step t (record { shared = s; threads = before ++ (thread holds (new ++ todo) ∷ after) })

moves :
    {t : System} (before : List Thread) (holds : Bool) (x : Action) (todo : List Action)
    (after : List Thread)
    → t.threads ≡ before ++ (thread holds (x ∷ todo) ∷ after)
    → CanPerform x t.shared
    → CanStep t before holds x todo after
moves before holds x todo after e can a =
    let (new, s, p) = can a in (new, s, p, goes_on before after holds x todo a new s e p)

-- A thread of the system has something to do, and its next action is a step.
abbrev pub GoesOn : System → Type 0
GoesOn t =
    (before : List Thread) × (holds : Bool) × (x : Action) × (todo : List Action) × (after : List
      Thread)
    × (t.threads ≡ before ++ (thread holds (x ∷ todo) ∷ after))
    × CanStep t before holds x todo after

middle-IsOrdered :
    (before : List Thread) (t : Thread) (after : List Thread)
    → AllOrdered (before ++ (t ∷ after))
    → IsOrdered t.todo
unfolding AllOrdered
middle-IsOrdered [] t after (o, os) = o
middle-IsOrdered (b ∷ before) t after (o, os) = middle-IsOrdered before t after os

-- The weight of what is under the lock.
abbrev under_lock : Action → ℕ
under_lock x = armed x + unsure x

sum-under_lock : (p : List Action) → sum under_lock p ≡ inside p
sum-under_lock [] = refl
sum-under_lock (x ∷ p) = omega (arith, sum-under_lock p)

total-under_lock : (ts : List Thread) → total ts under_lock ≡ total ts armed + total ts unsure
total-under_lock [] = refl
total-under_lock (t ∷ ts) = omega (arith, sum-under_lock t.todo, total-under_lock ts)

-- Whoever holds the lock can go on.
locked-GoesOn : {t : System} → Reach t → t.shared.locked ≡ true → GoesOn t
locked-GoesOn {t} r held =
    let v = Reach-IsShared r in
    let weight : 0 < total t.threads under_lock =
      (let l = v.lock_held in ground (arith, total-under_lock t.threads)) in
    let (before, holds, x, todo, after, e, l) = find_thread t.threads under_lock weight in
    let o =
      middle-IsOrdered before (thread holds (x ∷ todo)) after (rw e at (Reach-AllOrdered r)) in
    let within : 0 < inside (x ∷ todo) = omega (arith, l, sum-under_lock (x ∷ todo)) in
    (
      before,
      holds,
      x,
      todo,
      after,
      e,
      moves before holds x todo after e
          (not_waiting x t.shared (inside-runs x todo t.shared o within)),
    )

-- In every reachable state in which a thread has still something to do, the next action of some thread
-- is a step that the system can take at once, whatever the outside answers: a thread may wait for the
-- lock, but never all do.
pub unfinished-GoesOn : {t : System} → Reach t → 0 < total t.threads (λ x. 1) → GoesOn t
unfinished-GoesOn {t} r work = elim (Bool-cases t.shared.locked) [
  | inl held ↦ locked-GoesOn r held
  | inr free ↦
      let (before, holds, x, todo, after, e, l) = find_thread t.threads (λ x. 1) work in
      (
        before,
        holds,
        x,
        todo,
        after,
        e,
        moves before holds x todo after e (not_waiting x t.shared (free-runs x t.shared free)),
      )
]
