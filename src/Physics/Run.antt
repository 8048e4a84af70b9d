-- ===== src/Physics/Run.antt =====
-- The loops of `GetLadderExtent` (SimpleServer/GameRoom.cpp) end, and find the whole run of ladder tiles.
use simple_server.Prelude.{
  ℕ, zero, suc, ◌+◌, ◌≤◌, ◌<◌, ◌≡◌, refl, ap, inl, inr, Bool, true, false, Option, some, List, [],
  ◌∷◌, arith, if◌then◌else◌, ltb→lt, lt→ltb, le→ltb, Bool-cases, length,
}
use simple_server.Prelude.Int.{ℤ, pos, ◌+ℤ◌, ◌-ℤ◌, ltb_ℤ, eqb_ℤ, eqb_ℤ→eq, pos_part, neg_part}
use simple_server.Float.{FloatOps}
use simple_server.Map.{Map, is_ladder, pack_cell, contains}
use simple_server.Map.Cells.{pack_cell_parts}
use simple_server.Physics.Ladder.{ladder_run, ladder_down, ladder_up, get_ladder_extent}

-- How many keys pass a test.
abbrev pub count_by : (ℤ → Bool) → List ℤ → ℕ
count_by p [] = 0
count_by p (k ∷ ks) = (if p k then 1 else 0) + count_by p ks

count_by-le-length : (p : ℤ → Bool) (ks : List ℤ) → count_by p ks ≤ length ks
count_by-le-length p [] = omega arith
count_by-le-length p (k ∷ ks) = ground (arith, count_by-le-length p ks)

count_by_mono :
    (p q : ℤ → Bool) (ks : List ℤ)
    → ((k : ℤ) → p k ≡ true → q k ≡ true)
    → count_by p ks ≤ count_by q ks
count_by_mono p q [] h = omega arith
count_by_mono p q (k ∷ ks) h = ground (arith, h k, count_by_mono p q ks h)

-- A key in the set that passes only the second test makes the difference.
count_by-lt :
    (p q : ℤ → Bool) (a : ℤ) (ks : List ℤ)
    → ((k : ℤ) → p k ≡ true → q k ≡ true)
    → p a ≡ false
    → q a ≡ true
    → contains ks a ≡ true
    → count_by p ks < count_by q ks
unfolding contains
count_by-lt p q a [] h x y c = absurd (cc)
count_by-lt p q a (k ∷ ks) h x y c = elim (Bool-cases (eqb_ℤ k a)) [
  | inl e ↦
      let same = eqb_ℤ→eq k a e in ground (arith, count_by_mono p q ks h, ap p same, ap q same)
  | inr n ↦ ground (arith, h k, count_by-lt p q a ks h x y (rw n at c))
]

-- One row down or up, the key moves by 2^32.
pred_parts : (c : ℤ) → pos_part (c -ℤ pos 1) + neg_part c + 1 ≡ neg_part (c -ℤ pos 1) + pos_part c
unfolding ◌-ℤ◌
pred_parts c = ground arith

suc_parts : (c : ℤ) → pos_part (c +ℤ pos 1) + neg_part c ≡ neg_part (c +ℤ pos 1) + pos_part c + 1
unfolding ◌+ℤ◌
suc_parts c = ground arith

pack_cell-pred :
    (cx c : ℤ)
    → pos_part (pack_cell cx (c -ℤ pos 1)) + neg_part (pack_cell cx c) + 4294967296
      ≡ pos_part (pack_cell cx c) + neg_part (pack_cell cx (c -ℤ pos 1))
pack_cell-pred cx c =
    let a = pack_cell_parts cx c in
    let b = pack_cell_parts cx (c -ℤ pos 1) in let d = pred_parts c in omega arith

pack_cell-suc :
    (cx c : ℤ)
    → pos_part (pack_cell cx c) + neg_part (pack_cell cx (c +ℤ pos 1)) + 4294967296
      ≡ pos_part (pack_cell cx (c +ℤ pos 1)) + neg_part (pack_cell cx c)
pack_cell-suc cx c =
    let a = pack_cell_parts cx c in
    let b = pack_cell_parts cx (c +ℤ pos 1) in let d = suc_parts c in omega arith

ltb_ℤ-trans_lt :
    (k a b : ℤ)
    → pos_part a + neg_part b < pos_part b + neg_part a
    → ltb_ℤ k a ≡ true
    → ltb_ℤ k b ≡ true
ltb_ℤ-trans_lt k a b l h =
    let p = ltb→lt (pos_part k + neg_part a) (pos_part a + neg_part k) h in
    lt→ltb (pos_part k + neg_part b) (pos_part b + neg_part k) (omega arith)

lt_ltb_ℤ-trans :
    (k a b : ℤ)
    → pos_part b + neg_part a < pos_part a + neg_part b
    → ltb_ℤ a k ≡ true
    → ltb_ℤ b k ≡ true
lt_ltb_ℤ-trans k a b l h =
    let p = ltb→lt (pos_part a + neg_part k) (pos_part k + neg_part a) h in
    lt→ltb (pos_part b + neg_part k) (pos_part k + neg_part b) (omega arith)

module _ (fl : FloatOps) where
  open fl use {F}

  module _ (m : Map F) (cx : ℤ) (next : ℤ → ℤ) where
    -- The cell `n` steps on.
    abbrev pub steps_on : ℕ → ℤ → ℤ
    steps_on zero y = y
    steps_on (suc n) y = steps_on n (next y)

    -- The `n` cells after `y` are ladder, and the one behind them is not.
    abbrev pub IsRun : ℕ → ℤ → Type 0
    IsRun n y =
        ((j : ℕ) → j < n → is_ladder m cx (steps_on (suc j) y) ≡ true)
        × (is_ladder m cx (steps_on (suc n) y) ≡ false)

    abbrev pub Finds : ℕ → ℤ → Type 0
    Finds fuel y = (n : ℕ) × (ladder_run fl m cx next fuel y ≡ some (steps_on n y)) × IsRun n y

    IsRun-suc :
        (n : ℕ) (y : ℤ) → is_ladder m cx (next y) ≡ true → IsRun n (next y) → IsRun (suc n) y
    IsRun-suc n y h (r, e) = (all, e)
      where
        all : (j : ℕ) → j < suc n → is_ladder m cx (steps_on (suc j) y) ≡ true
        all zero l = h
        all (suc j) l = r j (omega arith)

    run_step :
        (fuel : ℕ) (y : ℤ)
        → (is_ladder m cx (next y) ≡ true → Finds fuel (next y))
        → Finds (suc fuel) y
    unfolding ladder_run
    run_step fuel y h = branch (is_ladder m cx (next y)) refl
      where
        branch :
            (b : Bool)
            → is_ladder m cx (next y) ≡ b
            → (n : ℕ) × (elim b as (λ x. Option ℤ) [
              | true ↦ ladder_run fl m cx next fuel (next y)
              | false ↦ some y
            ]
                ≡ some (steps_on n y))
              × IsRun n y
        branch false e = (0, refl, ((λ j l. absurd (omega arith)), e))
        branch true e = (let (n, q, r) = h e in (suc n, q, IsRun-suc n y e r))

    -- With `test y` passed by fewer keys after each step, as many rounds as keys are enough.
    module _ (test : ℤ → ℤ → Bool) (inward : (y k : ℤ) → test (next y) k ≡ true → test y k ≡ true)
        (own : (y : ℤ) → test y (pack_cell cx y) ≡ false)
        (ahead : (y : ℤ) → test y (pack_cell cx (next y)) ≡ true) where
      ladder_run-Finds : (fuel : ℕ) (y : ℤ) → count_by (test y) m.ladder < fuel → Finds fuel y
      unfolding is_ladder
      ladder_run-Finds zero y h = absurd (omega arith)
      ladder_run-Finds (suc fuel) y h = run_step fuel y (λ e. ladder_run-Finds fuel (next y) (
          let l =
            count_by-lt (test (next y)) (test y) (pack_cell cx (next y)) m.ladder (inward y)
              (own (next y)) (ahead y) e in
          omega arith))

      enough : (y : ℤ) → Finds (suc (length m.ladder)) y
      enough y =
          ladder_run-Finds (suc (length m.ladder)) y
            (omega (arith, count_by-le-length (test y) m.ladder))

  -- The loop downwards ends at the last of the ladder tiles below.
  pub ladder_down-Finds :
      (m : Map F) (cx y : ℤ) → Finds m cx (λ c. c -ℤ pos 1) (suc (length m.ladder)) y
  ladder_down-Finds m cx y =
      enough m cx (λ c. c -ℤ pos 1) (λ c k. ltb_ℤ k (pack_cell cx c))
        (λ c k h.
          ltb_ℤ-trans_lt k (pack_cell cx (c -ℤ pos 1)) (pack_cell cx c)
            (omega (arith, pack_cell-pred cx c)) h)
        (λ c. le→ltb _ _ (omega arith)) (λ c. lt→ltb _ _ (omega (arith, pack_cell-pred cx c))) y

  -- The loop upwards ends at the last of the ladder tiles above.
  pub ladder_up-Finds :
      (m : Map F) (cx y : ℤ) → Finds m cx (λ c. c +ℤ pos 1) (suc (length m.ladder)) y
  ladder_up-Finds m cx y =
      enough m cx (λ c. c +ℤ pos 1) (λ c k. ltb_ℤ (pack_cell cx c) k)
        (λ c k h.
          lt_ltb_ℤ-trans k (pack_cell cx (c +ℤ pos 1)) (pack_cell cx c)
            (omega (arith, pack_cell-suc cx c)) h)
        (λ c. le→ltb _ _ (omega arith)) (λ c. lt→ltb _ _ (omega (arith, pack_cell-suc cx c))) y

  -- The extent of a ladder through a cell is given by the whole run of ladder tiles around it: `d`
  -- cells down and `u` up are ladder, and the next ones are not. The two loops always end.
  pub get_ladder_extent_lem :
      (m : Map F) (cx cy : ℤ)
      → (d : ℕ) × (u : ℕ) × IsRun m cx (λ c. c -ℤ pos 1) d cy
        × IsRun m cx (λ c. c +ℤ pos 1) u cy
        × (get_ladder_extent fl m cx cy
            ≡ some (record {
              center_x = fl.mul (fl.add (fl.of_int cx) (fl.lit 5 1)) m.cell_size_x;
              min_y = fl.mul (fl.of_int (steps_on m cx (λ c. c -ℤ pos 1) d cy)) m.cell_size_y;
              max_y =
                  fl.mul (fl.of_int (steps_on m cx (λ c. c +ℤ pos 1) u cy +ℤ pos 1)) m.cell_size_y;
            }))
  unfolding get_ladder_extent ladder_down ladder_up
  get_ladder_extent_lem m cx cy =
      let (d, e, r) = ladder_down-Finds m cx cy in
      let (u, q, t) = ladder_up-Finds m cx cy in (d, u, r, t, rw (e, q))
