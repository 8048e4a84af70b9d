-- ===== src/Session/Threads/Done.antt =====
-- What is left of a session when all its threads have come to their end (ServerCore/Session.cpp).
use simple_server.Prelude.{ℕ, ◌<◌, ◌≡◌, refl, ◌↔◌, inl, inr, true, List, [], ◌∷◌, arith, Bool-cases}
use simple_server.Session.Lifetime.{count}
use simple_server.Session.Threads.{Action, Thread, System, Reach}
use simple_server.Session.Threads.Sums.{owed, total, telling}
use simple_server.Session.Threads.Invariant.{Reach-IsShared}

-- Every thread has come to its end.
unfoldable pub AllDone : List Thread → Type 0
AllDone [] = Unit
AllDone (t ∷ ts) = (t.todo ≡ []) × AllDone ts

total-done : (ts : List Thread) (w : Action → ℕ) → AllDone ts → total ts w ≡ 0
unfolding AllDone
total-done [] w h = refl
total-done (t ∷ ts) w (e, h) = rw e (omega (arith, total-done ts w h))

-- Once every thread has come to its end and nothing is posted, under every interleaving, the session
-- has been deleted if it is closed and only then, and the service has been told once if it is closed
-- and never otherwise.
pub done-freed :
    {t : System}
    → Reach t
    → AllDone t.threads
    → t.shared.pending_recv ≡ 0
    → t.shared.pending_send ≡ 0
    → ((0 < t.shared.deletions) ↔ (t.shared.closing ≡ true))
      × (t.shared.notices ≡ count t.shared.closing)
done-freed {t} r d p q =
    let v = Reach-IsShared r in
    let none_owed = total-done t.threads owed d in
    let all_told = total-done t.threads telling d in
    let deleted : (0 < t.shared.deletions) ↔ (t.shared.closing ≡ true) =
      (elim (Bool-cases t.shared.closing) [ inl c ↦ ground arith | inr o ↦ ground arith ]) in
    (deleted, elim (Bool-cases t.shared.closing) [ inl c ↦ ground arith | inr o ↦ ground arith ])
