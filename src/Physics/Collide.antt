-- ===== src/Physics/Collide.antt =====
-- The three collision tests of SimpleServer/GameRoom.cpp ask whether some cell of a range is in the
-- way: their loops against that description.
use simple_server.Prelude.{
  ℕ, zero, suc, ◌≡◌, refl, Bool, true, false, not, ◌&&◌, ◌||◌, arith, if◌then◌else◌,
}
use simple_server.Prelude.Int.{ℤ, pos, ◌+ℤ◌}
use simple_server.Float.{FloatOps}
use simple_server.Player.{Vec2}
use simple_server.Map.{
  Map, is_solid, is_floating_ground, world_to_cell, cell_top_y, cell_bottom_y, cell_left_x,
  cell_right_x,
}
use simple_server.Physics.{
  rounds, ground_threshold, player_half_w, player_half_h, zero_f, ground_cell, ground_loop,
  check_ground, ceil_cell, ceil_loop, check_ceiling, wall_loop, check_wall,
}

-- Whether one of the `n` cells from `c` on passes the test.
abbrev pub any_cell : (ℤ → Bool) → ℕ → ℤ → Bool
any_cell test zero c = false
any_cell test (suc n) c = test c || any_cell test n (c +ℤ pos 1)

module _ (fl : FloatOps) where
  open fl use {F, lit, add, sub, neg, lt, eq}

  -- A tile that a player can stand on.
  abbrev pub carries : Map F → Bool → ℤ → ℤ → Bool
  carries m ignore_floating cy cx =
      is_solid m cx cy || (not ignore_floating && is_floating_ground m cx cy)

  -- What the loop of `CheckGround` keeps of its row, whose top is `top`: nothing is above it.
  ground_loop_hit :
      (m : Map F) (g : Bool) (foot_y : F) (cy : ℤ) (n : ℕ) (cx : ℤ)
      → let top = cell_top_y fl m cy in
        lt top top ≡ false → ground_loop fl m g foot_y cy n cx (top, true) ≡ (top, true)
  unfolding ground_loop ground_cell
  ground_loop_hit m g foot_y cy zero cx i = refl
  ground_loop_hit m g foot_y cy (suc n) cx i =
      ground (arith, ground_loop_hit m g foot_y cy n (cx +ℤ pos 1) i)

  ground_loop_lem :
      (m : Map F) (g : Bool) (foot_y best : F) (cy : ℤ) (n : ℕ) (cx : ℤ)
      → let top = cell_top_y fl m cy in
        lt top top ≡ false
        → lt best top ≡ true
        → ground_loop fl m g foot_y cy n cx (best, false) ≡ (
            if not (lt (add foot_y (ground_threshold fl)) top) && any_cell (carries m g cy) n cx
            then (top, true)
            else (best, false))
  unfolding ground_loop ground_cell
  ground_loop_lem m g foot_y best cy zero cx i b = ground arith
  ground_loop_lem m g foot_y best cy (suc n) cx i b = ground (
    arith,
    ground_loop_hit m g foot_y cy n (cx +ℤ pos 1) i,
    ground_loop_lem m g foot_y best cy n (cx +ℤ pos 1) i b,
  )

  -- The row and the columns that `CheckGround` looks at.
  abbrev pub foot_row : Map F → Vec2 F → ℤ
  foot_row m p =
      world_to_cell fl (sub (sub p.y (player_half_h fl)) (ground_threshold fl)) m.cell_size_y

  abbrev pub left_column : Map F → Vec2 F → ℤ
  left_column m p = world_to_cell fl (add (sub p.x (player_half_w fl)) (lit 1 2)) m.cell_size_x

  abbrev pub right_column : Map F → Vec2 F → ℤ
  right_column m p = world_to_cell fl (sub (add p.x (player_half_w fl)) (lit 1 2)) m.cell_size_x

  -- Whether there is ground within the threshold under a player.
  abbrev pub stands : Map F → Vec2 F → Bool → Bool
  stands m p g =
      not (
        lt (add (sub p.y (player_half_h fl)) (ground_threshold fl))
          (cell_top_y fl m (foot_row m p)))
      && any_cell (carries m g (foot_row m p)) (rounds (left_column m p) (right_column m p))
          (left_column m p)

  -- On a loaded map `CheckGround` hits exactly if the row under the feet has its top within the
  -- threshold and one of the player's columns carries there; the ground is then the top of the row.
  -- The order of floats is irreflexive at that top, which is above -10^9.
  pub check_ground_lem :
      (m : Map F) (p : Vec2 F) (g : Bool)
      → let top = cell_top_y fl m (foot_row m p) in
        m.loaded ≡ true
        → lt top top ≡ false
        → lt (neg (lit 1000000000 0)) top ≡ true
        → check_ground fl m p g
          ≡ record { hit = stands m p g; ground_y = if stands m p g then top else zero_f fl }
  unfolding check_ground
  check_ground_lem m p g l i b = ground (
    arith,
    ground_loop_lem m g (sub p.y (player_half_h fl)) (neg (lit 1000000000 0)) (foot_row m p)
        (rounds (left_column m p) (right_column m p)) (left_column m p) i b,
  )

  wall_loop_lem :
      (m : Map F) (move_x : F) (cx : ℤ) (n : ℕ) (cy : ℤ)
      → wall_loop fl m move_x cx n cy ≡ (
          if any_cell (λ c. is_solid m cx c) n cy
          then record {
            hit = true;
            wall_x =
                if lt (zero_f fl) move_x
                then sub (cell_left_x fl m cx) (player_half_w fl)
                else add (cell_right_x fl m cx) (player_half_w fl);
          }
          else record { hit = false; wall_x = zero_f fl })
  unfolding wall_loop
  wall_loop_lem m move_x cx zero cy = refl
  wall_loop_lem m move_x cx (suc n) cy = ground (arith, wall_loop_lem m move_x cx n (cy +ℤ pos 1))

  -- The column that `CheckWall` looks at, and where it puts the player.
  abbrev pub side_column : Map F → Vec2 F → F → ℤ
  side_column m p move_x =
      world_to_cell fl
        (if lt (zero_f fl) move_x
          then add (add p.x (player_half_w fl)) (lit 1 2)
          else sub (sub p.x (player_half_w fl)) (lit 1 2))
        m.cell_size_x

  abbrev pub beside : Map F → Vec2 F → F → F
  beside m p move_x =
      if lt (zero_f fl) move_x
      then sub (cell_left_x fl m (side_column m p move_x)) (player_half_w fl)
      else add (cell_right_x fl m (side_column m p move_x)) (player_half_w fl)

  -- Whether a solid cell stands beside a player, from foot to head.
  abbrev pub blocked : Map F → Vec2 F → F → Bool
  blocked m p move_x =
      let lowest = world_to_cell fl (add (sub p.y (player_half_h fl)) (lit 5 2)) m.cell_size_y in
      let highest = world_to_cell fl (sub (add p.y (player_half_h fl)) (lit 5 2)) m.cell_size_y in
      any_cell (λ c. is_solid m (side_column m p move_x) c) (rounds lowest highest) lowest

  -- `CheckWall` hits exactly if the map is loaded, the player moves, and a solid cell stands on that
  -- side between foot and head; the wall is then where the player touches that column.
  pub check_wall_lem :
      (m : Map F) (p : Vec2 F) (move_x : F)
      → let hit = m.loaded && not (eq move_x (zero_f fl)) && blocked m p move_x in
        check_wall fl m p move_x
        ≡ record { hit = hit; wall_x = if hit then beside m p move_x else zero_f fl }
  unfolding check_wall
  check_wall_lem m p move_x =
      let lowest = world_to_cell fl (add (sub p.y (player_half_h fl)) (lit 5 2)) m.cell_size_y in
      let highest = world_to_cell fl (sub (add p.y (player_half_h fl)) (lit 5 2)) m.cell_size_y in
      ground (arith, wall_loop_lem m move_x (side_column m p move_x) (rounds lowest highest) lowest)

  ceil_loop_hit :
      (m : Map F) (cy : ℤ) (n : ℕ) (cx : ℤ)
      → let low = cell_bottom_y fl m cy in
        lt low low ≡ false → ceil_loop fl m cy n cx (low, true) ≡ (low, true)
  unfolding ceil_loop ceil_cell
  ceil_loop_hit m cy zero cx i = refl
  ceil_loop_hit m cy (suc n) cx i = ground (arith, ceil_loop_hit m cy n (cx +ℤ pos 1) i)

  ceil_loop_lem :
      (m : Map F) (best : F) (cy : ℤ) (n : ℕ) (cx : ℤ)
      → let low = cell_bottom_y fl m cy in
        lt low low ≡ false
        → lt low best ≡ true
        → ceil_loop fl m cy n cx (best, false)
          ≡ (if any_cell (λ c. is_solid m c cy) n cx then (low, true) else (best, false))
  unfolding ceil_loop ceil_cell
  ceil_loop_lem m best cy zero cx i b = refl
  ceil_loop_lem m best cy (suc n) cx i b =
      ground
        (arith, ceil_loop_hit m cy n (cx +ℤ pos 1) i, ceil_loop_lem m best cy n (cx +ℤ pos 1) i b)

  abbrev pub head_row : Map F → Vec2 F → ℤ
  head_row m p =
      world_to_cell fl (add (add p.y (player_half_h fl)) (ground_threshold fl)) m.cell_size_y

  -- Whether a solid cell is in the row over a player's head.
  abbrev pub covered : Map F → Vec2 F → Bool
  covered m p =
      any_cell (λ c. is_solid m c (head_row m p)) (rounds (left_column m p) (right_column m p))
        (left_column m p)

  -- On a loaded map `CheckCeiling` hits exactly if one of the player's columns is solid in the row
  -- over the head; the ceiling is then the bottom of that row. The order of floats is irreflexive at
  -- that bottom, which is below 10^9.
  pub check_ceiling_lem :
      (m : Map F) (p : Vec2 F)
      → let low = cell_bottom_y fl m (head_row m p) in
        m.loaded ≡ true
        → lt low low ≡ false
        → lt low (lit 1000000000 0) ≡ true
        → check_ceiling fl m p
          ≡ record { hit = covered m p; ceil_y = if covered m p then low else zero_f fl }
  unfolding check_ceiling
  check_ceiling_lem m p l i b = ground (
    arith,
    ceil_loop_lem m (lit 1000000000 0) (head_row m p) (rounds (left_column m p) (right_column m p))
        (left_column m p) i b,
  )
