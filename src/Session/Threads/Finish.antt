-- ===== src/Session/Threads/Finish.antt =====
-- How the threads of a session come to their end (ServerCore/Session.cpp).
use simple_server.Prelude.{
  ℕ, zero, suc, ◌+◌, ◌≤◌, ◌<◌, ◌≡◌, refl, inl, inr, true, List, [], ◌∷◌, ◌++◌, arith, ltb, ltb→lt,
  ltb-false→le, Bool-cases,
}
use simple_server.Session.Threads.{
  Action, Reply, break_off, Thread, thread, System, goes_on, Reach, next,
}
use simple_server.Session.Threads.Sums.{sum, total}
use simple_server.Session.Threads.Done.{AllDone}
use simple_server.Session.Threads.Progress.{unfinished-GoesOn}
use simple_server.Session.Threads.Ends.{rank, Schedule, over, action, Schedule-ends}

Schedule-Reach : {n : ℕ} {t u : System} → Reach t → Schedule n t u → Reach u
Schedule-Reach r over = r
Schedule-Reach r (action before after holds x todo a new s e h p rest) =
    Schedule-Reach (next r (goes_on before after holds x todo a new s e p)) rest

nothing_left : (ts : List Thread) → total ts (λ x. 1) ≡ 0 → AllDone ts
unfolding AllDone
nothing_left [] h = tt
nothing_left (t ∷ ts) h = (no_actions t.todo (omega (arith, h)), nothing_left ts (omega (arith, h)))
  where
    no_actions : (p : List Action) → sum (λ x. 1) p ≡ 0 → p ≡ []
    no_actions [] z = refl
    no_actions (x ∷ p) z = absurd (omega (arith, z))

-- The answers of the outside: every call is started, and no packet is there.
abbrev quiet_reply : Reply
quiet_reply = record { up = true; round = break_off }

-- One action of a thread that does not wait, and how it begins a schedule.
abbrev Onward : System → Type 0
Onward t =
    (v : System) × Reach v
    × (suc (total v.threads rank) ≤ total t.threads rank)
    × ((m : ℕ) (u : System) → Schedule m v u → Schedule (suc m) t u)

onward : (t : System) → Reach t → 0 < total t.threads (λ x. 1) → Onward t
onward t r work =
    let (before, holds, x, todo, after, e, can) = unfinished-GoesOn r work in
    let (new, s, p, st) = can quiet_reply in
    let begin = λ (m : ℕ) (u : System).
      action {t = t} {u = u} {n = m} before after holds x todo quiet_reply new s e tt p in
    (
      record { shared = s; threads = before ++ (thread holds (new ++ todo) ∷ after) },
      next r st,
      (let ends = Schedule-ends (begin 0 _ over) in omega (arith, ends)),
      begin,
    )

-- A way to the end, from any state.
abbrev Finishes : System → Type 0
Finishes t = (m : ℕ) × (v : System) × Schedule m t v × AllDone v.threads

-- The ranks are fuel enough.
finish : (fuel : ℕ) (t : System) → Reach t → total t.threads rank ≤ fuel → Finishes t
finish zero t r enough = elim (Bool-cases (ltb 0 (total t.threads (λ x. 1)))) [
  | inl some_left ↦
      let (v, r2, less, begin) = onward t r (ltb→lt 0 (total t.threads (λ x. 1)) some_left) in
      absurd (omega (arith, less, enough))
  | inr none_left ↦
      let z = ltb-false→le 0 (total t.threads (λ x. 1)) none_left in
      (0, t, over, nothing_left t.threads (omega (arith, z)))
]
finish (suc fuel) t r enough = elim (Bool-cases (ltb 0 (total t.threads (λ x. 1)))) [
  | inl some_left ↦
      let (v, r2, less, begin) = onward t r (ltb→lt 0 (total t.threads (λ x. 1)) some_left) in
      let (m, u, c, d) = finish fuel v r2 (omega (arith, less, enough)) in
      (suc m, u, begin m u c, d)
  | inr none_left ↦
      let z = ltb-false→le 0 (total t.threads (λ x. 1)) none_left in
      (0, t, over, nothing_left t.threads (omega (arith, z)))
]

-- From a reachable state, while no further thread starts and no packet is handed to the handler:
-- however far the threads have gone on, in whatever order, they can still all come to their end, and
-- they do in no more actions altogether than their ranks add up to. So none of them is ever stuck.
pub Schedule-finishes :
    {n : ℕ} {t u : System}
    → Reach t
    → Schedule n t u
    → (m : ℕ) × (v : System) × Schedule m u v × AllDone v.threads × (n + m ≤ total t.threads rank)
Schedule-finishes {n = n} {t = t} {u = u} r c =
    let (m, v, c2, d) = finish (total u.threads rank) u (Schedule-Reach r c) (omega arith) in
    (m, v, c2, d, omega (arith, Schedule-ends c, Schedule-ends c2))
