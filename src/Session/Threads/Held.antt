-- ===== src/Session/Threads/Held.antt =====
-- The reference that a worker of NetService::WorkerLoop (ServerCore/NetService.cpp) holds on its
-- session: it is dropped last.
use simple_server.Prelude.{◌<◌, ◌≡◌, refl, true, Option, none, some, List, [], ◌∷◌, ◌++◌, arith}
use mathlib.Core.Path.{subst}
use simple_server.Session.Threads.{
  Action, Reply, Shared, perform, drop_ref, recv_worker, send_worker, Thread, thread, System,
  new_system, Step, goes_on, sends, closes, recv_completes, send_completes, Reach, started, next,
}
use simple_server.Session.Threads.Sums.{owed, sum}

-- A worker drops its reference last of all.
unfoldable pub DropsLast : List Action → Type 0
DropsLast [] = Unit
DropsLast (x ∷ []) = x ≡ drop_ref
DropsLast (x ∷ y ∷ p) = DropsLast (y ∷ p)

unfoldable pub AllHold : List Thread → Type 0
AllHold [] = Unit
AllHold (t ∷ ts) = (t.holds ≡ true → DropsLast t.todo) × AllHold ts

drops-append :
    (new : List Action) (y : Action) (p : List Action)
    → DropsLast (y ∷ p)
    → DropsLast (new ++ (y ∷ p))
unfolding DropsLast
drops-append [] y p d = d
drops-append (x ∷ []) y p d = d
drops-append (x ∷ z ∷ new) y p d = drops-append (z ∷ new) y p d

pub drops-owed : (x : Action) (p : List Action) → DropsLast (x ∷ p) → 0 < sum owed (x ∷ p)
unfolding DropsLast
drops-owed x [] d = rw d (omega arith)
drops-owed x (y ∷ p) d = omega (arith, drops-owed y p d)

abbrev Leaves : (List Action → Type 0) → Option (List Action × Shared) → Type 0
Leaves P none = Unit {0}
Leaves P (some (new, s)) = P (new ++ [])

-- The last action of a worker is its `Release`, which leaves nothing to do.
performed-DropsLast :
    (x : Action) (p : List Action) (a : Reply) (s s' : Shared) (new : List Action)
    → perform x a s ≡ some (new, s')
    → DropsLast (x ∷ p)
    → DropsLast (new ++ p)
unfolding DropsLast perform
performed-DropsLast x [] a s s' new e d =
    let last : perform drop_ref a s ≡ some (new, s') = rw d at e in
    subst (λ (m : Option (List Action × Shared)). Leaves DropsLast m) last tt
performed-DropsLast x (y ∷ p) a s s' new e d = drops-append new y p d

replaced-AllHold :
    (before : List Thread) (t u : Thread) (after : List Thread)
    → AllHold (before ++ (t ∷ after))
    → ((t.holds ≡ true → DropsLast t.todo) → u.holds ≡ true → DropsLast u.todo)
    → AllHold (before ++ (u ∷ after))
unfolding AllHold
replaced-AllHold [] t u after (d, ds) h = (h d, ds)
replaced-AllHold (b ∷ before) t u after (d, ds) h = (d, replaced-AllHold before t u after ds h)

pub middle-DropsLast :
    (before : List Thread) (t : Thread) (after : List Thread)
    → AllHold (before ++ (t ∷ after))
    → t.holds ≡ true
    → DropsLast t.todo
unfolding AllHold
middle-DropsLast [] t after (d, ds) h = d h
middle-DropsLast (b ∷ before) t after (d, ds) h = middle-DropsLast before t after ds h

Step-AllHold : {from to : System} → Step from to → AllHold from.threads → AllHold to.threads
unfolding AllHold recv_worker send_worker DropsLast
Step-AllHold {from} (goes_on before after holds x todo a new s e p) v =
    replaced-AllHold before (thread holds (x ∷ todo)) (thread holds (new ++ todo)) after (rw e at v)
      (λ d h. performed-DropsLast x todo a from.shared s new p (d h))
Step-AllHold (sends b) v = ((λ h. absurd (cc)), v)
Step-AllHold closes v = ((λ h. absurd (cc)), v)
Step-AllHold (recv_completes ok h) v = ((λ d. refl), v)
Step-AllHold (send_completes ok h) v = ((λ d. refl), v)

pub Reach-AllHold : {t : System} → Reach t → AllHold t.threads
unfolding AllHold new_system
Reach-AllHold started = ((λ h. absurd (cc)), tt)
Reach-AllHold (next r st) = Step-AllHold st (Reach-AllHold r)
