-- ===== src/Physics/Simulate.antt =====
-- `SimulatePlayer` of SimpleServer/GameRoom.cpp, cut at the numbered comments of the source. What is
-- written to `std::cout`, with the `CheckGround` that only it needs, is left out.
use simple_server.Prelude.{ℕ, zero, suc, Bool, true, false, not, ◌&&◌, ◌||◌, ◌==◌, if◌then◌else◌}
use simple_server.Prelude.Int.{pos, pos_part, ltb_ℤ}
use simple_server.Float.{FloatOps}
use simple_server.Player.{InputCmd, PhysicsState, dir_none, dir_left, dir_right}
use simple_server.Map.{Map}
use simple_server.Physics.{
  check_ground, check_ceiling, check_wall, move_speed, jump_force, gravity, ground_threshold,
  max_fall_speed, climb_speed, player_half_h, zero_f,
}

module _ (fl : FloatOps) where
  open fl use {F, lit, add, sub, mul, div, neg, abs, lt, le, eq, of_int, ceil_int}

  abbrev pub with_vel_y : F → PhysicsState F → PhysicsState F
  with_vel_y v s = record s { vel = record (s.vel) { y = v } }

  abbrev pub with_pos_y : F → PhysicsState F → PhysicsState F
  with_pos_y v s = record s { pos = record (s.pos) { y = v } }

  unfoldable pub use_dt : InputCmd F → F → F
  use_dt cmd dt =
      if lt (zero_f fl) cmd.delta_time && lt cmd.delta_time (lit 1 1) then cmd.delta_time else dt

  -- `cmd.jump` on a ladder.
  unfoldable pub ladder_jump : PhysicsState F → PhysicsState F
  ladder_jump s = record s {
    is_on_ladder = false;
    vel = record { x = zero_f fl; y = jump_force fl };
    is_jumping = true;
    is_grounded = false;
  }

  unfoldable pub climb_velocity : InputCmd F → F
  climb_velocity cmd =
      let up = if cmd.move_up then climb_speed fl else zero_f fl in
      if cmd.move_down then neg (climb_speed fl) else up

  unfoldable pub clamp_to_ladder : PhysicsState F → PhysicsState F
  clamp_to_ladder s =
      let s1 = if lt s.pos.y s.ladder_min_y then with_pos_y s.ladder_min_y s else s in
      let top = add s1.ladder_max_y (player_half_h fl) in
      if lt top s1.pos.y then with_pos_y top s1 else s1

  -- Reaching solid ground on the way down.
  unfoldable pub bottom_exit : Map F → F → PhysicsState F → PhysicsState F
  bottom_exit m vy s =
      if lt vy (zero_f fl)
      then (let gr = check_ground fl m s.pos true in
          if gr.hit
          then record s {
            is_on_ladder = false;
            pos = record (s.pos) { y = add gr.ground_y (player_half_h fl) };
            vel = record { x = zero_f fl; y = zero_f fl };
            is_grounded = true;
          }
          else s)
      else s

  -- The flag says that `SimulatePlayer` returns.
  unfoldable pub top_exit : F → PhysicsState F → Bool × PhysicsState F
  top_exit vy s =
      if s.is_on_ladder && lt (zero_f fl) vy && le (add s.ladder_max_y (player_half_h fl)) s.pos.y
      then (true, record s { is_on_ladder = false; vel = record { x = zero_f fl; y = zero_f fl } })
      else (s.is_on_ladder, s)

  unfoldable pub climb : Map F → InputCmd F → F → PhysicsState F → Bool × PhysicsState F
  climb m cmd dt s =
      let vy = climb_velocity cmd in
      let moved = record s {
        vel = record { x = zero_f fl; y = vy };
        pos = record { x = s.ladder_center_x; y = add s.pos.y (mul vy (use_dt cmd dt)) };
      } in
      top_exit vy (bottom_exit m vy (clamp_to_ladder moved))

  unfoldable pub ladder_step : Map F → InputCmd F → F → PhysicsState F → Bool × PhysicsState F
  ladder_step m cmd dt s =
      let s1 = record s { is_crouching = false } in
      if cmd.jump then (false, ladder_jump s1) else climb m cmd dt s1

  -- 1. The timer of the drop through a floating platform.
  unfoldable pub drop_timer : InputCmd F → F → PhysicsState F → PhysicsState F
  drop_timer cmd step_dt s =
      if cmd.drop_through
      then record s { drop_through_timer = lit 25 2 }
      else if lt (zero_f fl) s.drop_through_timer
      then (let left = sub s.drop_through_timer step_dt in
          record s { drop_through_timer = if lt (zero_f fl) left then left else zero_f fl })
      else s

  unfoldable pub move_x_of : InputCmd F → F
  move_x_of cmd =
      let left = if cmd.move_left then neg (lit 1 0) else zero_f fl in
      if cmd.move_right then lit 1 0 else left

  -- 2. The direction.
  unfoldable pub turn : InputCmd F → F → PhysicsState F → PhysicsState F
  turn cmd move_x s =
      let dir1 =
        if lt move_x (zero_f fl)
        then dir_left
        else if lt (zero_f fl) move_x
        then dir_right
        else s.dir in
      record s {
        is_moving = not (eq move_x (zero_f fl));
        is_crouching =
            s.is_grounded
            && cmd.move_down
            && not cmd.move_left
            && not cmd.move_right
            && not cmd.jump;
        dir = if not (cmd.face_dir == dir_none) then cmd.face_dir else dir1;
      }

  -- 3 and 4. The ground before the move, which holds the player down.
  unfoldable pub stick : Map F → Bool → PhysicsState F → PhysicsState F
  stick m ignore_floating s =
      let ground = check_ground fl m s.pos (ignore_floating || lt (zero_f fl) s.vel.y) in
      let s1 = record s { is_grounded = ground.hit } in
      if s1.is_grounded && le s1.vel.y (zero_f fl) then with_vel_y (neg (lit 2 0)) s1 else s1

  -- 5. The jump.
  unfoldable pub jump_step : InputCmd F → PhysicsState F → PhysicsState F
  jump_step cmd s =
      if cmd.jump && s.is_grounded
      then record s {
        vel = record (s.vel) { y = jump_force fl };
        is_jumping = true;
        is_grounded = false;
      }
      else s

  -- 6. Gravity, down to the terminal velocity.
  unfoldable pub fall : F → PhysicsState F → PhysicsState F
  fall step_dt s =
      if not s.is_grounded
      then (let v = sub s.vel.y (mul (gravity fl) step_dt) in
          with_vel_y (if lt v (max_fall_speed fl) then max_fall_speed fl else v) s)
      else s

  unfoldable pub move_sideways : Map F → F → F → PhysicsState F → PhysicsState F
  move_sideways m move_x step_dt s =
      let s1 = record s {
        pos = record (s.pos) { x = add s.pos.x (mul (mul move_x (move_speed fl)) step_dt) };
      } in
      if not (eq move_x (zero_f fl))
      then (let wall = check_wall fl m s1.pos move_x in
          if wall.hit
          then record s1 {
            pos = record (s1.pos) { x = wall.wall_x };
            vel = record (s1.vel) { x = zero_f fl };
          }
          else s1)
      else s1

  unfoldable pub rise : Map F → F → PhysicsState F → PhysicsState F
  rise m step_dt s =
      let s1 = with_pos_y (add s.pos.y (mul s.vel.y step_dt)) s in
      let ceil = check_ceiling fl m s1.pos in
      if ceil.hit
      then with_vel_y (zero_f fl) (with_pos_y (sub ceil.ceil_y (player_half_h fl)) s1)
      else s1

  unfoldable pub land : F → PhysicsState F → PhysicsState F
  land ground_y s = record s {
    pos = record (s.pos) { y = add ground_y (player_half_h fl) };
    vel = record (s.vel) { y = neg (lit 2 0) };
    is_grounded = true;
    is_jumping = false;
  }

  -- The substeps of a descent, up to the first that meets ground.
  unfoldable pub descend : Map F → Bool → F → ℕ → PhysicsState F → PhysicsState F
  descend m ignore_floating sub_dt zero s = s
  descend m ignore_floating sub_dt (suc n) s =
      let s1 = with_pos_y (add s.pos.y (mul s.vel.y sub_dt)) s in
      let gr = check_ground fl m s1.pos ignore_floating in
      elim gr.hit [ true ↦ land gr.ground_y s1 | false ↦ descend m ignore_floating sub_dt n s1 ]

  -- `std::max(1, (int)std::ceil(totalMove / subStepSize))`, or 1 for no movement.
  unfoldable pub num_steps : F → F → ℕ
  num_steps vel_y step_dt =
      let total = abs (mul vel_y step_dt) in
      let n = ceil_int (div total (mul (ground_threshold fl) (lit 9 1))) in
      if lt (zero_f fl) total then (if ltb_ℤ (pos 1) n then pos_part n else 1) else 1

  unfoldable pub move_vertically : Map F → Bool → F → PhysicsState F → PhysicsState F
  move_vertically m ignore_floating step_dt s =
      if lt (zero_f fl) s.vel.y
      then rise m step_dt s
      else (let n = num_steps s.vel.y step_dt in
          descend m ignore_floating (div step_dt (of_int (pos n))) n s)

  -- 7. The acknowledged sequence number.
  unfoldable pub acknowledge : InputCmd F → PhysicsState F → PhysicsState F
  acknowledge cmd s =
      if not (cmd.input_seq == 0) then record s { last_input_seq = cmd.input_seq } else s

  -- The steps 1 to 6.
  unfoldable pub moved : Map F → InputCmd F → F → PhysicsState F → PhysicsState F
  moved m cmd dt s =
      let step_dt = use_dt cmd dt in
      let s1 = drop_timer cmd step_dt s in
      let ignore_floating = lt (zero_f fl) s1.drop_through_timer in
      let move_x = move_x_of cmd in
      let s2 = stick m ignore_floating (turn cmd move_x s1) in
      let s3 = fall step_dt (jump_step cmd s2) in
      move_vertically m ignore_floating step_dt (move_sideways m move_x step_dt s3)

  unfoldable pub normal_physics : Map F → InputCmd F → F → PhysicsState F → PhysicsState F
  normal_physics m cmd dt s = acknowledge cmd (moved m cmd dt s)

  unfoldable pub simulate_player : Map F → InputCmd F → F → PhysicsState F → PhysicsState F
  simulate_player m cmd dt s =
      if s.is_on_ladder
      then (let (returns, s1) = ladder_step m cmd dt s in
          if returns then s1 else normal_physics m cmd dt s1)
      else normal_physics m cmd dt s
