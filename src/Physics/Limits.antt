-- ===== src/Physics/Limits.antt =====
-- Bounds that `SimulatePlayer` (SimpleServer/GameRoom.cpp) keeps, from named facts about the order of floats.
use simple_server.Prelude.{ℕ, zero, suc, ◌≡◌, Bool, false, arith, if_both}
use simple_server.Float.{FloatOps}
use simple_server.Player.{InputCmd, PhysicsState}
use simple_server.Map.{Map}
use simple_server.Physics.{zero_f, jump_force, max_fall_speed, climb_speed}
use simple_server.Physics.Simulate.{
  ladder_jump, climb_velocity, clamp_to_ladder, bottom_exit, top_exit, climb, ladder_step,
  drop_timer, turn, stick, jump_step, fall, move_sideways, rise, land, descend, num_steps,
  move_vertically, acknowledge, moved, normal_physics, simulate_player, with_pos_y,
}
use simple_server.Physics.Facts.{descend_step}

-- What IEEE 754 says of the constants that a velocity is set to: none is below -15.
pub record IsOrdered (fl : FloatOps) : Type 0 where
  pub max_fall : FloatOps.lt fl (max_fall_speed fl) (max_fall_speed fl) ≡ false
  pub pressed : FloatOps.lt fl (FloatOps.neg fl (FloatOps.lit fl 2 0)) (max_fall_speed fl) ≡ false
  pub at_rest : FloatOps.lt fl (zero_f fl) (max_fall_speed fl) ≡ false
  pub jumping : FloatOps.lt fl (jump_force fl) (max_fall_speed fl) ≡ false
  pub climbing : FloatOps.lt fl (climb_speed fl) (max_fall_speed fl) ≡ false
  pub descending : FloatOps.lt fl (FloatOps.neg fl (climb_speed fl)) (max_fall_speed fl) ≡ false

module _ (fl : FloatOps) (o : IsOrdered fl) where
  open fl use {F, lt, add, mul}

  -- The player falls no faster than the terminal velocity.
  abbrev pub IsSlow : PhysicsState F → Type 0
  IsSlow s = lt s.vel.y (max_fall_speed fl) ≡ false

  stick-IsSlow : (m : Map F) (g : Bool) (s : PhysicsState F) → IsSlow s → IsSlow (stick fl m g s)
  unfolding stick
  stick-IsSlow m g s v = ground (arith, o.pressed)

  jump_step-IsSlow :
      (cmd : InputCmd F) (s : PhysicsState F) → IsSlow s → IsSlow (jump_step fl cmd s)
  unfolding jump_step
  jump_step-IsSlow cmd s v = ground (arith, o.jumping)

  fall-IsSlow : (dt : F) (s : PhysicsState F) → IsSlow s → IsSlow (fall fl dt s)
  unfolding fall
  fall-IsSlow dt s v = ground (arith, o.max_fall)

  rise-IsSlow : (m : Map F) (dt : F) (s : PhysicsState F) → IsSlow s → IsSlow (rise fl m dt s)
  unfolding rise
  rise-IsSlow m dt s v = ground (arith, o.at_rest)

  descend-IsSlow :
      (m : Map F) (g : Bool) (dt : F) (n : ℕ) (s : PhysicsState F)
      → IsSlow s
      → IsSlow (descend fl m g dt n s)
  unfolding land descend
  descend-IsSlow m g dt zero s v = v
  descend-IsSlow m g dt (suc n) s v =
      descend_step fl IsSlow m g dt n s (λ e. o.pressed)
        (λ e. descend-IsSlow m g dt n (with_pos_y fl (add s.pos.y (mul s.vel.y dt)) s) v)

  sideways-IsSlow :
      (m : Map F) (x dt : F) (s : PhysicsState F) → IsSlow s → IsSlow (move_sideways fl m x dt s)
  unfolding move_sideways
  sideways-IsSlow m x dt s v = ground arith

  prepare-IsSlow :
      (cmd : InputCmd F) (x dt : F) (s : PhysicsState F)
      → IsSlow s
      → IsSlow (turn fl cmd x (drop_timer fl cmd dt s))
  unfolding turn drop_timer
  prepare-IsSlow cmd x dt s v = ground arith

  vertically-IsSlow :
      (m : Map F) (g : Bool) (dt : F) (s : PhysicsState F)
      → IsSlow s
      → IsSlow (move_vertically fl m g dt s)
  unfolding move_vertically
  vertically-IsSlow m g dt s v =
      if_both IsSlow (lt (zero_f fl) s.vel.y) _ _ (rise-IsSlow m dt s v)
        (descend-IsSlow m g _ (num_steps fl s.vel.y dt) s v)

  acknowledge-IsSlow :
      (cmd : InputCmd F) (s : PhysicsState F) → IsSlow s → IsSlow (acknowledge fl cmd s)
  unfolding acknowledge
  acknowledge-IsSlow cmd s v = ground arith

  normal_physics-IsSlow :
      (m : Map F) (cmd : InputCmd F) (dt : F) (s : PhysicsState F)
      → IsSlow s
      → IsSlow (normal_physics fl m cmd dt s)
  unfolding normal_physics moved
  normal_physics-IsSlow m cmd dt s v = acknowledge-IsSlow cmd _ (
      vertically-IsSlow m _ _ _ (
        sideways-IsSlow m _ _ _ (
          fall-IsSlow _ _
            (jump_step-IsSlow cmd _ (stick-IsSlow m _ _ (prepare-IsSlow cmd _ _ s v))))))

  climb_velocity_slow : (cmd : InputCmd F) → lt (climb_velocity fl cmd) (max_fall_speed fl) ≡ false
  unfolding climb_velocity
  climb_velocity_slow cmd = ground (arith, o.climbing, o.descending, o.at_rest)

  clamp-IsSlow : (s : PhysicsState F) → IsSlow s → IsSlow (clamp_to_ladder fl s)
  unfolding clamp_to_ladder
  clamp-IsSlow s v = ground arith

  bottom-IsSlow :
      (m : Map F) (vy : F) (s : PhysicsState F) → IsSlow s → IsSlow (bottom_exit fl m vy s)
  unfolding bottom_exit
  bottom-IsSlow m vy s v = ground (arith, o.at_rest)

  top-IsSlow : (vy : F) (s : PhysicsState F) → IsSlow s → IsSlow (top_exit fl vy s).1
  unfolding top_exit
  top-IsSlow vy s v = ground (arith, o.at_rest)

  ladder_step-IsSlow :
      (m : Map F) (cmd : InputCmd F) (dt : F) (s : PhysicsState F)
      → IsSlow (ladder_step fl m cmd dt s).1
  unfolding ladder_step ladder_jump climb
  ladder_step-IsSlow m cmd dt s =
      if_both (λ (r : Bool × PhysicsState F). IsSlow r.1) cmd.jump _ _ o.jumping
        (top-IsSlow _ _ (bottom-IsSlow m _ _ (clamp-IsSlow _ (climb_velocity_slow cmd))))

  -- If the floats order the constants as IEEE 754 does, a step from a vertical velocity that is not
  -- below `MAX_FALL_SPEED` leaves one that is not.
  pub simulate_player-IsSlow :
      (m : Map F) (cmd : InputCmd F) (dt : F) (s : PhysicsState F)
      → IsSlow s
      → IsSlow (simulate_player fl m cmd dt s)
  unfolding simulate_player
  simulate_player-IsSlow m cmd dt s v =
      let l = ladder_step fl m cmd dt s in
      let u = ladder_step-IsSlow m cmd dt s in
      if_both IsSlow s.is_on_ladder _ _
        (if_both IsSlow l.0 _ _ u (normal_physics-IsSlow m cmd dt l.1 u))
        (normal_physics-IsSlow m cmd dt s v)
