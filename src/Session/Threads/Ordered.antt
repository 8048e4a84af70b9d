-- ===== src/Session/Threads/Ordered.antt =====
-- In what order the actions of a thread need `_sendLock` (ServerCore/Session.cpp).
use simple_server.Prelude.{
  ℕ, ◌+◌, ◌≡◌, refl, Bool, true, false, Option, none, some, List, [], ◌∷◌, ◌++◌, arith,
}
use mathlib.Core.Path.{subst}
use simple_server.SendBuffer.{SendBuffer}
use simple_server.Session.Threads.{
  Shared, Action, Reply, Round, break_off, malformed, handled, try_recv, try_send, read_packet,
  after_handler, try_close, drop_ref, perform, after_round, recv_worker, send_worker, Thread,
  thread, System, new_system, Step, goes_on, sends, closes, recv_completes, send_completes, Reach,
  started, next,
}
use simple_server.Session.Threads.Sums.{sum, armed, unsure}

-- Under the lock.
abbrev pub inside : List Action → ℕ
inside p = sum armed p + sum unsure p

abbrev is_drop : Action → Bool
is_drop drop_ref = true
is_drop _ = false

-- Only a `Release` stands before an action that needs the lock held.
unfoldable pub IsOrdered : List Action → Type 0
IsOrdered [] = Unit
IsOrdered (x ∷ p) = (is_drop x ≡ false → inside p ≡ 0) × IsOrdered p

-- The same, when nothing at all needs the lock behind.
ordered-tail : (x : Action) (p : List Action) → IsOrdered p → inside p ≡ 0 → IsOrdered (x ∷ p)
unfolding IsOrdered
ordered-tail x p o z = ((λ d. z), o)

-- An action leaves a thread in order.
abbrev Ordering : List Action → Option (List Action × Shared) → Type 0
Ordering p none = Unit {0}
Ordering p (some (new, s)) = IsOrdered (new ++ p)

after_round-Ordered :
    (bs : List SendBuffer) (ok : Bool) (p : List Action)
    → IsOrdered p
    → inside p ≡ 0
    → IsOrdered (after_round bs ok ++ p) × (inside (after_round bs ok ++ p) ≡ 0)
unfolding after_round
after_round-Ordered [] true p o z = (ordered-tail after_handler p o z, omega (arith, z))
after_round-Ordered [] false p o z = (ordered-tail try_close p o z, omega (arith, z))
after_round-Ordered (b ∷ bs) ok p o z =
    let (h, k) = after_round-Ordered bs ok p o z in
    (ordered-tail (try_send b) (after_round bs ok ++ p) h k, omega (arith, k))

round-Ordered :
    (r : Round) (s : Shared) (p : List Action)
    → IsOrdered p
    → inside p ≡ 0
    → Ordering p (perform read_packet (record { up = true; round = r }) s)
unfolding perform
round-Ordered break_off s p o z = ordered-tail try_recv p o z
round-Ordered malformed s p o z = ordered-tail try_close p o z
round-Ordered (handled bs ok) s p o z = (after_round-Ordered bs ok p o z).0

performed-Ordered :
    (x : Action) (a : Reply) (s : Shared) (p : List Action)
    → IsOrdered (x ∷ p)
    → Ordering p (perform x a s)
unfolding perform IsOrdered
performed-Ordered drop_ref a s p (z, o) = o
performed-Ordered read_packet a s p (z, o) = round-Ordered a.round s p o (z refl)
performed-Ordered x a s p (z, o) = ground arith

-- Every thread is in order.
unfoldable pub AllOrdered : List Thread → Type 0
AllOrdered [] = Unit
AllOrdered (t ∷ ts) = IsOrdered t.todo × AllOrdered ts

replaced-AllOrdered :
    (before : List Thread) (t u : Thread) (after : List Thread)
    → AllOrdered (before ++ (t ∷ after))
    → (IsOrdered t.todo → IsOrdered u.todo)
    → AllOrdered (before ++ (u ∷ after))
unfolding AllOrdered
replaced-AllOrdered [] t u after (o, os) h = (h o, os)
replaced-AllOrdered (b ∷ before) t u after (o, os) h =
    (o, replaced-AllOrdered before t u after os h)

Step-AllOrdered :
    {from to : System} → Step from to → AllOrdered from.threads → AllOrdered to.threads
unfolding AllOrdered recv_worker send_worker IsOrdered
Step-AllOrdered {from} (goes_on before after holds x todo a new s e p) v =
    replaced-AllOrdered before (thread holds (x ∷ todo)) (thread holds (new ++ todo)) after
      (rw e at v) (λ o. subst (Ordering todo) p (performed-Ordered x a from.shared todo o))
Step-AllOrdered (sends b) v = (((λ d. refl), tt), v)
Step-AllOrdered closes v = (((λ d. refl), tt), v)
Step-AllOrdered (recv_completes true h) v = (((λ d. refl), ((λ d. refl), tt)), v)
Step-AllOrdered (recv_completes false h) v = (((λ d. refl), ((λ d. refl), tt)), v)
Step-AllOrdered (send_completes true h) v = (((λ d. refl), ((λ d. refl), tt)), v)
Step-AllOrdered (send_completes false h) v = (((λ d. refl), ((λ d. refl), tt)), v)

pub Reach-AllOrdered : {t : System} → Reach t → AllOrdered t.threads
unfolding AllOrdered IsOrdered new_system
Reach-AllOrdered started = (((λ d. refl), tt), tt)
Reach-AllOrdered (next r st) = Step-AllOrdered st (Reach-AllOrdered r)
