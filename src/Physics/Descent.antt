-- ===== src/Physics/Descent.antt =====
-- The descent of `SimulatePlayer` (SimpleServer/GameRoom.cpp) in substeps does not pass through ground.
use simple_server.Prelude.{ℕ, zero, suc, ◌<◌, ◌≡◌, refl, ◌⊎◌, inl, inr, Bool, true, false, arith}
use simple_server.Float.{FloatOps}
use simple_server.Player.{PhysicsState}
use simple_server.Map.{Map}
use simple_server.Physics.{check_ground}
use simple_server.Physics.Simulate.{land, descend, with_pos_y}
use simple_server.Physics.Facts.{descend_step}

module _ (fl : FloatOps) where
  open fl use {F, add, mul}

  -- The height after `n` substeps of `d` from `y`.
  abbrev pub fall_to : F → ℕ → F → F
  fall_to d zero y = y
  fall_to d (suc n) y = fall_to d n (add y d)

  module _ (m : Map F) (g : Bool) (dt : F) where
    -- The player after `n` substeps that met no ground.
    abbrev pub fallen : ℕ → PhysicsState F → PhysicsState F
    fallen n s = with_pos_y fl (fall_to (mul s.vel.y dt) n s.pos.y) s

    abbrev pub Meets : PhysicsState F → Bool → Type 0
    Meets s b = (check_ground fl m s.pos g).hit ≡ b

    -- None of the first `n` substeps ends on ground.
    abbrev pub IsClear : ℕ → PhysicsState F → Type 0
    IsClear n s = (j : ℕ) → j < n → Meets (fallen (suc j) s) false

    -- `t` has landed after the first substep that ends on ground, or has made `n` that do not.
    abbrev pub Outcome : ℕ → PhysicsState F → PhysicsState F → Type 0
    Outcome n s t =
        ((i : ℕ) × (i < n)
          × IsClear i s
          × Meets (fallen (suc i) s) true
          × (t ≡ land fl (check_ground fl m (fallen (suc i) s).pos g).ground_y (fallen (suc i) s)))
        ⊎ (IsClear n s × (t ≡ fallen n s))

    IsClear-suc :
        (n : ℕ) (s : PhysicsState F)
        → Meets (fallen 1 s) false
        → IsClear n (fallen 1 s)
        → IsClear (suc n) s
    IsClear-suc n s h k zero l = h
    IsClear-suc n s h k (suc j) l = k j (omega arith)

    Outcome-suc :
        (n : ℕ) (s t : PhysicsState F)
        → Meets (fallen 1 s) false
        → Outcome n (fallen 1 s) t
        → Outcome (suc n) s t
    Outcome-suc n s t h (inl (i, l, c, e, q)) = inl (suc i, omega arith, IsClear-suc i s h c, e, q)
    Outcome-suc n s t h (inr (c, q)) = inr (IsClear-suc n s h c, q)

    -- The descent stops at the first of its `n` substeps that ends on ground, and the player lands on
    -- the ground found there; if no substep does, the player has made them all.
    pub descend-Outcome : (n : ℕ) (s : PhysicsState F) → Outcome n s (descend fl m g dt n s)
    unfolding descend
    descend-Outcome zero s = inr ((λ j l. absurd (omega arith)), refl)
    descend-Outcome (suc n) s =
        descend_step fl (Outcome (suc n) s) m g dt n s
          (λ e. inl (0, omega arith, (λ j l. absurd (omega arith)), e, refl))
          (λ e. Outcome-suc n s _ e (descend-Outcome n (fallen 1 s)))
