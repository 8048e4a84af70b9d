-- ===== src/Physics/Ladder.antt =====
-- Ladders: `GetLadderExtent` and `HandleLadderState` of SimpleServer/GameRoom.cpp. The loops run on
-- fuel; the coordinates are not at the ends of the range of `int`, where `yMin--` would overflow.
use simple_server.Prelude.{
  ℕ, zero, suc, Bool, true, false, not, Option, none, some, if◌then◌else◌, ◌>>=◌, length,
}
use simple_server.Prelude.Int.{ℤ, pos, ◌+ℤ◌, ◌-ℤ◌}
use simple_server.Float.{FloatOps}
use simple_server.Player.{PhysicsState}
use simple_server.Map.{Map, is_ladder, world_to_cell}

module _ (fl : FloatOps) where
  open fl use {F, lit, add, sub, mul, of_int}

  -- `while (IsLadder(cx, next(y))) y = next(y)`. `none` means that the fuel ran out.
  unfoldable pub ladder_run : Map F → ℤ → (ℤ → ℤ) → ℕ → ℤ → Option ℤ
  ladder_run m cx next zero y = none
  ladder_run m cx next (suc fuel) y = elim (is_ladder m cx (next y)) [
    | true ↦ ladder_run m cx next fuel (next y)
    | false ↦ some y
  ]

  -- The loops of `yMin--` and `yMax++`.
  unfoldable pub ladder_down : Map F → ℤ → ℕ → ℤ → Option ℤ
  ladder_down m cx fuel y = ladder_run m cx (λ c. c -ℤ pos 1) fuel y

  unfoldable pub ladder_up : Map F → ℤ → ℕ → ℤ → Option ℤ
  ladder_up m cx fuel y = ladder_run m cx (λ c. c +ℤ pos 1) fuel y

  pub record Extent : Type 0 where
    pub center_x : F
    pub min_y : F
    pub max_y : F

  -- Every round passes another tile of the ladder set, so its size is fuel enough.
  unfoldable pub get_ladder_extent : Map F → ℤ → ℤ → Option Extent
  get_ladder_extent m cx start_cy = do
    y_min ← ladder_down m cx (suc (length m.ladder)) start_cy
    y_max ← ladder_up m cx (suc (length m.ladder)) start_cy
    some (record {
      center_x = mul (add (of_int cx) (lit 5 1)) m.cell_size_x;
      min_y = mul (of_int y_min) m.cell_size_y;
      max_y = mul (of_int (y_max +ℤ pos 1)) m.cell_size_y;
    })

  -- The extent stored on entering at (px, py), once the player's cell is known.
  unfoldable pub entry_extent : Map F → F → F → ℤ → ℤ → Option Extent
  entry_extent m px py cx cy =
      if is_ladder m cx cy
      then get_ladder_extent m cx cy
      else some (record { center_x = px; min_y = sub py (lit 5 1); max_y = add py (lit 10 0) })

  unfoldable pub enter_ladder : F → F → PhysicsState F → PhysicsState F
  enter_ladder px py s = record s {
    is_on_ladder = true;
    pos = record { x = px; y = py };
    vel = record { x = lit 0 0; y = lit 0 0 };
    is_grounded = false;
    is_jumping = false;
  }

  unfoldable pub set_extent : Extent → PhysicsState F → PhysicsState F
  set_extent e s = record s {
    ladder_center_x = e.center_x;
    ladder_min_y = e.min_y;
    ladder_max_y = e.max_y;
  }

  -- `none` means only that the fuel of a loop ran out. `vx` and `vy` are not used.
  unfoldable pub handle_ladder_state :
      Map F → Bool → F → F → PhysicsState F → Option (PhysicsState F)
  handle_ladder_state m on_ladder px py s =
      if not on_ladder
      then some s
      else if not m.loaded
      then some (enter_ladder px py s)
      else (let cx = world_to_cell fl px m.cell_size_x in
          let cy0 = world_to_cell fl py m.cell_size_y in
          let cy = if not (is_ladder m cx cy0) then cy0 -ℤ pos 1 else cy0 in
          entry_extent m px py cx cy >>= λ e. some (set_extent e (enter_ladder px py s)))
