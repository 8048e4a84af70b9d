-- ===== src/Physics.antt =====
-- The collision tests of SimpleServer/GameRoom.cpp and the constants of GameRoom.h, over the abstract
-- floats. The movement of a player is in `Physics.Simulate`.
pub mod Collide
pub mod Ladder
pub mod Run
pub mod Simulate
pub mod Descent
pub mod Facts
pub mod Limits
use simple_server.Prelude.{ℕ, zero, suc, ◌+◌, Bool, true, false, not, ◌&&◌, ◌||◌, if◌then◌else◌}
use simple_server.Prelude.Int.{ℤ, pos, ◌+ℤ◌, ◌-ℤ◌, ltb_ℤ, pos_part}
use simple_server.Float.{FloatOps}
use simple_server.Player.{Vec2}
use simple_server.Map.{
  Map, is_solid, is_floating_ground, world_to_cell, cell_top_y, cell_bottom_y, cell_left_x,
  cell_right_x,
}

pub record GroundResult (F : Type 0) : Type 0 where
  pub hit : Bool
  pub ground_y : F

pub record CeilResult (F : Type 0) : Type 0 where
  pub hit : Bool
  pub ceil_y : F

pub record WallResult (F : Type 0) : Type 0 where
  pub hit : Bool
  pub wall_x : F

-- How often `for (int c = lo; c <= hi; c++)` runs.
unfoldable pub rounds : ℤ → ℤ → ℕ
rounds lo hi = if ltb_ℤ hi lo then 0 else pos_part (hi -ℤ lo) + 1

module _ (fl : FloatOps) where
  open fl use {F, lit, add, sub, mul, div, neg, lt, le, eq}

  abbrev pub tick_rate : F
  tick_rate = lit 20 0

  abbrev pub client_tick_rate : F
  client_tick_rate = lit 50 0

  abbrev pub move_speed : F
  move_speed = lit 50 1

  abbrev pub jump_force : F
  jump_force = lit 10 0

  abbrev pub gravity : F
  gravity = lit 2943 2

  abbrev pub ground_threshold : F
  ground_threshold = lit 1 1

  abbrev pub max_fall_speed : F
  max_fall_speed = neg (lit 15 0)

  abbrev pub climb_speed : F
  climb_speed = lit 3 0

  abbrev pub player_half_w : F
  player_half_w = lit 3 1

  abbrev pub player_half_h : F
  player_half_h = lit 5 1

  abbrev pub zero_f : F
  zero_f = lit 0 0

  -- The body of the loop of `CheckGround`: the best height so far and whether there was a hit.
  unfoldable pub ground_cell : Map F → Bool → F → ℤ → ℤ → F × Bool → F × Bool
  ground_cell m ignore_floating foot_y cy cx (best, hit) =
      let solid = is_solid m cx cy in
      let floating = not ignore_floating && is_floating_ground m cx cy in
      let tile_top = cell_top_y fl m cy in
      if not solid && not floating
      then (best, hit)
      else if lt (add foot_y ground_threshold) tile_top
      then (best, hit)
      else if lt best tile_top
      then (tile_top, true)
      else (best, hit)

  unfoldable pub ground_loop : Map F → Bool → F → ℤ → ℕ → ℤ → F × Bool → F × Bool
  unfolding ground_cell
  ground_loop m ignore_floating foot_y cy zero cx acc = acc
  ground_loop m ignore_floating foot_y cy (suc n) cx acc =
      ground_loop m ignore_floating foot_y cy n (cx +ℤ pos 1)
        (ground_cell m ignore_floating foot_y cy cx acc)

  unfoldable pub check_ground : Map F → Vec2 F → Bool → GroundResult F
  unfolding ground_loop
  check_ground m p ignore_floating =
      if not m.loaded
      then record {
        hit = le (sub p.y player_half_h) (add zero_f ground_threshold);
        ground_y = zero_f;
      }
      else (let foot_y = sub p.y player_half_h in
          let cy = world_to_cell fl (sub foot_y ground_threshold) m.cell_size_y in
          let cx_min = world_to_cell fl (add (sub p.x player_half_w) (lit 1 2)) m.cell_size_x in
          let cx_max = world_to_cell fl (sub (add p.x player_half_w) (lit 1 2)) m.cell_size_x in
          let (best, hit) =
            ground_loop m ignore_floating foot_y cy (rounds cx_min cx_max) cx_min
              (neg (lit 1000000000 0), false) in
          record { hit = hit; ground_y = if hit then best else zero_f })

  unfoldable pub ceil_cell : Map F → ℤ → ℤ → F × Bool → F × Bool
  ceil_cell m cy cx (best, hit) =
      let tile_bottom = cell_bottom_y fl m cy in
      if not (is_solid m cx cy)
      then (best, hit)
      else if lt tile_bottom best
      then (tile_bottom, true)
      else (best, hit)

  unfoldable pub ceil_loop : Map F → ℤ → ℕ → ℤ → F × Bool → F × Bool
  unfolding ceil_cell
  ceil_loop m cy zero cx acc = acc
  ceil_loop m cy (suc n) cx acc = ceil_loop m cy n (cx +ℤ pos 1) (ceil_cell m cy cx acc)

  unfoldable pub check_ceiling : Map F → Vec2 F → CeilResult F
  unfolding ceil_loop
  check_ceiling m p =
      if not m.loaded
      then record { hit = false; ceil_y = zero_f }
      else (let head_y = add p.y player_half_h in
          let cy = world_to_cell fl (add head_y ground_threshold) m.cell_size_y in
          let cx_min = world_to_cell fl (add (sub p.x player_half_w) (lit 1 2)) m.cell_size_x in
          let cx_max = world_to_cell fl (sub (add p.x player_half_w) (lit 1 2)) m.cell_size_x in
          let (best, hit) =
            ceil_loop m cy (rounds cx_min cx_max) cx_min (lit 1000000000 0, false) in
          record { hit = hit; ceil_y = if hit then best else zero_f })

  -- The loop of `CheckWall` asks only whether some cell of the column is solid.
  unfoldable pub wall_loop : Map F → F → ℤ → ℕ → ℤ → WallResult F
  wall_loop m move_x cx zero cy = record { hit = false; wall_x = zero_f }
  wall_loop m move_x cx (suc n) cy =
      let rest = wall_loop m move_x cx n (cy +ℤ pos 1) in
      if not (is_solid m cx cy) then rest else record {
        hit = true;
        wall_x =
            if lt zero_f move_x
            then sub (cell_left_x fl m cx) player_half_w
            else add (cell_right_x fl m cx) player_half_w;
      }

  unfoldable pub check_wall : Map F → Vec2 F → F → WallResult F
  unfolding wall_loop
  check_wall m p move_x =
      if not m.loaded || eq move_x zero_f
      then record { hit = false; wall_x = zero_f }
      else (let side_x =
            if lt zero_f move_x
            then add (add p.x player_half_w) (lit 1 2)
            else sub (sub p.x player_half_w) (lit 1 2) in
          let cx = world_to_cell fl side_x m.cell_size_x in
          let cy_min = world_to_cell fl (add (sub p.y player_half_h) (lit 5 2)) m.cell_size_y in
          let cy_max = world_to_cell fl (sub (add p.y player_half_h) (lit 5 2)) m.cell_size_y in
          wall_loop m move_x cx (rounds cy_min cy_max) cy_min)
