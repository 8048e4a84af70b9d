-- ===== src/Session/Threads/Alone.antt =====
-- A thread of a session (ServerCore/Session.cpp) that runs alone, one action after the other.
use simple_server.Prelude.{
  ℕ, zero, suc, ◌+◌, ◌≤◌, ◌≡◌, refl, sym, ap, Bool, true, false, Option, none, some, List, [], ◌∷◌,
  ◌++◌, arith, ltb, ◌>>=◌,
}
use mathlib.Core.Path.{subst}
use mathlib.Core.Option.{some-injective}
use mathlib.Core.List.{append_assoc}
use simple_server.Session.{Session, Env, release}
use simple_server.Session.Threads.{
  Shared, Action, break_off, call_recv, call_send, drop_ref, notify, perform, release_shared,
}

-- The same session, as either model has it, while the lock is free.
pub record Agrees (s : Session) (t : Shared) : Type 0 where
  pub same_count : t.ref_count ≡ s.ref_count
  pub same_closing : t.closing ≡ s.closing
  pub same_queue : t.send_q ≡ s.send_q
  pub same_sending : t.sending ≡ s.sending
  pub same_recv : t.pending_recv ≡ s.pending_recv
  pub same_send : t.pending_send ≡ s.pending_send
  pub same_sent : t.sent ≡ s.sent
  pub same_deleted : ltb 0 t.deletions ≡ s.deleted
  pub unlocked : t.locked ≡ false

module _ {W : Type 0} (env : Env W) where
  -- What the outside world answers to an action, and how it changes.
  unfoldable pub replies : Action → W → Shared → Bool × W
  replies call_recv w t = env.wsa_recv w
  replies call_send w t = elim t.send_q [ [] ↦ (true, w) | b ∷ bs ↦ env.wsa_send b w ]
  replies notify w t = (true, env.notify_disconnected w)
  replies _ w t = (true, w)

  -- A thread runs alone, for at most so many actions. `none` is a thread that waits or is not done.
  unfoldable pub alone : ℕ → List Action → W → Shared → Option (W × Shared)
  alone n [] w t = some (w, t)
  alone zero (x ∷ p) w t = none
  alone (suc n) (x ∷ p) w t =
      let r = replies x w t in
      perform x (record { up = r.0; round = break_off }) t >>= λ u. alone n (u.0 ++ p) r.1 u.1

  -- It comes to its end, with the same world and the same session.
  abbrev pub Matches : Option (W × Shared) → W × Session → Type 0
  Matches none r = ⊥
  Matches (some (w, t)) r = (w ≡ r.0) × Agrees r.1 t

  bind-more :
      {A : Type 0} (m : Option A) (f g : A → Option (W × Shared)) (r z : W × Shared)
      → ((u : A) → f u ≡ some r → g u ≡ some z)
      → (m >>= f) ≡ some r
      → (m >>= g) ≡ some z
  bind-more none f g r z h e = absurd (cc)
  bind-more (some u) f g r z h e = h u e

  -- More to do behind, and fuel for it.
  alone-then :
      (n m : ℕ) (p q : List Action) (w : W) (t : Shared) (r z : W × Shared)
      → alone n p w t ≡ some r
      → ((k : ℕ) → m ≤ k → alone k q r.0 r.1 ≡ some z)
      → alone (n + m) (p ++ q) w t ≡ some z
  unfolding alone
  alone-then n m [] q w t r z e h =
      subst (λ (u : W × Shared). alone (n + m) q u.0 u.1 ≡ some z) (sym (some-injective (w, t) r e))
        (h (n + m) (omega arith))
  alone-then zero m (x ∷ p) q w t r z e h = absurd (cc)
  alone-then (suc n) m (x ∷ p) q w t r z e h =
      let v = replies x w t in
      let m1 = perform x (record { up = v.0; round = break_off }) t in
      let more : suc n + m ≡ suc (n + m) = omega arith in
      subst (λ k. alone k (x ∷ (p ++ q)) w t ≡ some z) (sym more)
        (bind-more m1 (λ u. alone n (u.0 ++ p) v.1 u.1)
          (λ u. alone (n + m) (u.0 ++ (p ++ q)) v.1 u.1) r z
          (λ u f.
            subst (λ l. alone (n + m) l v.1 u.1 ≡ some z) (append_assoc u.0 p q)
              (alone-then n m (u.0 ++ p) q v.1 u.1 r z f h))
          e)

  -- The `Release` that ends a worker's round.
  drop_ref-alone :
      (k : ℕ) (w : W) (t : Shared)
      → 1 ≤ k
      → alone k (drop_ref ∷ []) w t ≡ some (w, release_shared t)
  unfolding alone replies perform
  drop_ref-alone zero w t l = absurd (omega arith)
  drop_ref-alone (suc k) w t l = refl

  release-Agrees : (s : Session) (t : Shared) → Agrees s t → Agrees (release s) (release_shared t)
  unfolding release release_shared
  release-Agrees s t a = ground arith

  matched :
      (m : Option (W × Shared)) (r : W × Session)
      → Matches m r
      → (t : Shared) × (m ≡ some (r.0, t)) × Agrees r.1 t
  matched none r h = absurd h
  matched (some (w, t)) r (e, a) = (t, ap (λ k. some (k, t)) e, a)

  -- A method and the `Release` behind it.
  pub released-alone :
      (n : ℕ) (x : Action) (w : W) (t : Shared) (r : W × Session)
      → Matches (alone n (x ∷ []) w t) r
      → Matches (alone (n + 1) (x ∷ drop_ref ∷ []) w t) (r.0, release r.1)
  released-alone n x w t r h =
      let (t2, e, a) = matched (alone n (x ∷ []) w t) r h in
      let last =
        alone-then n 1 (x ∷ []) (drop_ref ∷ []) w t (r.0, t2) (r.0, release_shared t2) e
          (λ k l. drop_ref-alone k r.0 t2 l) in
      rw last (refl, release-Agrees r.1 t2 a)
