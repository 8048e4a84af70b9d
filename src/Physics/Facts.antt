-- ===== src/Physics/Facts.antt =====
-- What holds of a player after `SimulatePlayer` (SimpleServer/GameRoom.cpp), whatever the floats do.
use simple_server.Prelude.{
  ℕ, zero, suc, ◌≡◌, refl, ◌∙◌, Bool, true, false, not, ◌&&◌, arith, ◌==◌, if◌then◌else◌, if_both,
}
use simple_server.Float.{FloatOps}
use simple_server.Player.{InputCmd, PhysicsState}
use simple_server.Map.{Map}
use simple_server.Physics.{check_ground, zero_f}
use simple_server.Physics.Simulate.{
  ladder_jump, clamp_to_ladder, bottom_exit, top_exit, climb, ladder_step, drop_timer, turn, stick,
  jump_step, fall, move_sideways, rise, land, descend, num_steps, move_vertically, acknowledge,
  moved, normal_physics, simulate_player, with_pos_y,
}

module _ (fl : FloatOps) where
  open fl use {F, add, mul, lt}

  -- The horizontal velocity is 0.
  abbrev pub IsStill : PhysicsState F → Type 0
  IsStill s = s.vel.x ≡ zero_f fl

  -- What a phase of the movement keeps: the horizontal velocity at 0, and the acknowledged input.
  record Keeps (s t : PhysicsState F) : Type 0 where
    still : IsStill s → IsStill t
    seq : t.last_input_seq ≡ s.last_input_seq

  Keeps-trans : (s t u : PhysicsState F) → Keeps s t → Keeps t u → Keeps s u
  Keeps-trans s t u h k = record { still = λ v. k.still (h.still v); seq = k.seq ∙ h.seq }

  drop_timer-Keeps :
      (cmd : InputCmd F) (dt : F) (s : PhysicsState F) → Keeps s (drop_timer fl cmd dt s)
  unfolding drop_timer
  drop_timer-Keeps cmd dt s = ground arith

  turn-Keeps : (cmd : InputCmd F) (x : F) (s : PhysicsState F) → Keeps s (turn fl cmd x s)
  unfolding turn
  turn-Keeps cmd x s = record { still = λ v. v; seq = refl }

  stick-Keeps : (m : Map F) (g : Bool) (s : PhysicsState F) → Keeps s (stick fl m g s)
  unfolding stick
  stick-Keeps m g s = ground arith

  jump_step-Keeps : (cmd : InputCmd F) (s : PhysicsState F) → Keeps s (jump_step fl cmd s)
  unfolding jump_step
  jump_step-Keeps cmd s = ground arith

  fall-Keeps : (dt : F) (s : PhysicsState F) → Keeps s (fall fl dt s)
  unfolding fall
  fall-Keeps dt s = ground arith

  move_sideways-Keeps :
      (m : Map F) (x dt : F) (s : PhysicsState F) → Keeps s (move_sideways fl m x dt s)
  unfolding move_sideways
  move_sideways-Keeps m x dt s = ground arith

  rise-Keeps : (m : Map F) (dt : F) (s : PhysicsState F) → Keeps s (rise fl m dt s)
  unfolding rise
  rise-Keeps m dt s = ground arith

  -- The two ways on from a substep.
  pub descend_step :
      (P : PhysicsState F → Type 0) (m : Map F) (g : Bool) (dt : F) (n : ℕ) (s : PhysicsState F)
      → let s1 = with_pos_y fl (add s.pos.y (mul s.vel.y dt)) s in
        let gr = check_ground fl m s1.pos g in
        (gr.hit ≡ true → P (land fl gr.ground_y s1))
        → (gr.hit ≡ false → P (descend fl m g dt n s1))
        → P (descend fl m g dt (suc n) s)
  unfolding descend
  descend_step P m g dt n s h k =
      let s1 = with_pos_y fl (add s.pos.y (mul s.vel.y dt)) s in
      let gr = check_ground fl m s1.pos g in branch gr.hit h k
    where
      branch :
          (b : Bool)
          → (b ≡ true
              → P (
                  land fl
                    (check_ground fl m
                      (with_pos_y fl (add s.pos.y (mul s.vel.y dt)) s).pos
                      g).ground_y
                    (with_pos_y fl (add s.pos.y (mul s.vel.y dt)) s)))
          → (b ≡ false → P (descend fl m g dt n (with_pos_y fl (add s.pos.y (mul s.vel.y dt)) s)))
          → P (elim b [
            | true ↦
                land fl
                  (check_ground fl m
                    (with_pos_y fl (add s.pos.y (mul s.vel.y dt)) s).pos
                    g).ground_y
                  (with_pos_y fl (add s.pos.y (mul s.vel.y dt)) s)
            | false ↦ descend fl m g dt n (with_pos_y fl (add s.pos.y (mul s.vel.y dt)) s)
          ])
      branch true h k = h refl
      branch false h k = k refl

  descend-Keeps :
      (m : Map F) (g : Bool) (dt : F) (n : ℕ) (s : PhysicsState F) → Keeps s (descend fl m g dt n s)
  unfolding land descend
  descend-Keeps m g dt zero s = record { still = λ v. v; seq = refl }
  descend-Keeps m g dt (suc n) s =
      descend_step (λ t. Keeps s t) m g dt n s (λ e. record { still = λ v. v; seq = refl })
        (λ e.
          (let k = descend-Keeps m g dt n (with_pos_y fl (add s.pos.y (mul s.vel.y dt)) s) in
            record { still = k.still; seq = k.seq }))

  move_vertically-Keeps :
      (m : Map F) (g : Bool) (dt : F) (s : PhysicsState F) → Keeps s (move_vertically fl m g dt s)
  unfolding move_vertically
  move_vertically-Keeps m g dt s =
      if_both (λ t. Keeps s t) (lt (zero_f fl) s.vel.y) _ _ (rise-Keeps m dt s)
        (descend-Keeps m g _ (num_steps fl s.vel.y dt) s)

  moved-Keeps :
      (m : Map F) (cmd : InputCmd F) (dt : F) (s : PhysicsState F) → Keeps s (moved fl m cmd dt s)
  unfolding moved
  moved-Keeps m cmd dt s = Keeps-trans s _ _ (drop_timer-Keeps cmd _ s) (
      Keeps-trans _ _ _ (turn-Keeps cmd _ _) (
        Keeps-trans _ _ _ (stick-Keeps m _ _) (
          Keeps-trans _ _ _ (jump_step-Keeps cmd _) (
            Keeps-trans _ _ _ (fall-Keeps _ _)
              (Keeps-trans _ _ _ (move_sideways-Keeps m _ _ _) (move_vertically-Keeps m _ _ _))))))

  normal_physics-IsStill :
      (m : Map F) (cmd : InputCmd F) (dt : F) (s : PhysicsState F)
      → IsStill s
      → IsStill (normal_physics fl m cmd dt s)
  unfolding normal_physics acknowledge
  normal_physics-IsStill m cmd dt s v =
      if_both IsStill (not (cmd.input_seq == 0)) _ _ ((moved-Keeps m cmd dt s).still v)
        ((moved-Keeps m cmd dt s).still v)

  -- The number that the client is told after a command: the command's own, unless that is 0.
  abbrev pub acknowledged : InputCmd F → ℕ → ℕ
  acknowledged cmd old = if not (cmd.input_seq == 0) then cmd.input_seq else old

  normal_physics-seq :
      (m : Map F) (cmd : InputCmd F) (dt : F) (s : PhysicsState F)
      → (normal_physics fl m cmd dt s).last_input_seq ≡ acknowledged cmd s.last_input_seq
  unfolding normal_physics acknowledge
  normal_physics-seq m cmd dt s = ground (arith, (moved-Keeps m cmd dt s).seq)

  clamp_to_ladder-Keeps : (s : PhysicsState F) → Keeps s (clamp_to_ladder fl s)
  unfolding clamp_to_ladder
  clamp_to_ladder-Keeps s = ground arith

  bottom_exit-Keeps : (m : Map F) (vy : F) (s : PhysicsState F) → Keeps s (bottom_exit fl m vy s)
  unfolding bottom_exit
  bottom_exit-Keeps m vy s = ground arith

  top_exit-Keeps : (vy : F) (s : PhysicsState F) → Keeps s (top_exit fl vy s).1
  unfolding top_exit
  top_exit-Keeps vy s = ground arith

  climb-Keeps :
      (m : Map F) (cmd : InputCmd F) (dt : F) (s : PhysicsState F) → Keeps s (climb fl m cmd dt s).1
  unfolding climb
  climb-Keeps m cmd dt s =
      Keeps-trans s _ _ (record { still = λ v. refl; seq = refl })
        (Keeps-trans _ _ _ (clamp_to_ladder-Keeps _)
          (Keeps-trans _ _ _ (bottom_exit-Keeps m _ _) (top_exit-Keeps _ _)))

  ladder_step-Keeps :
      (m : Map F) (cmd : InputCmd F) (dt : F) (s : PhysicsState F)
      → Keeps s (ladder_step fl m cmd dt s).1
  unfolding ladder_step ladder_jump
  ladder_step-Keeps m cmd dt s =
      if_both (λ (r : Bool × PhysicsState F). Keeps s r.1) cmd.jump _ _
        (record { still = λ v. refl; seq = refl })
        (let k = climb-Keeps m cmd dt (record s { is_crouching = false }) in
          record { still = k.still; seq = k.seq })

  -- No step gives a player a horizontal velocity: if it is 0, as the constructor sets it, it stays 0.
  pub simulate_player-IsStill :
      (m : Map F) (cmd : InputCmd F) (dt : F) (s : PhysicsState F)
      → IsStill s
      → IsStill (simulate_player fl m cmd dt s)
  unfolding simulate_player
  simulate_player-IsStill m cmd dt s v =
      let l = ladder_step fl m cmd dt s in
      let u = (ladder_step-Keeps m cmd dt s).still v in
      if_both IsStill s.is_on_ladder _ _
        (if_both IsStill l.0 _ _ u (normal_physics-IsStill m cmd dt l.1 u))
        (normal_physics-IsStill m cmd dt s v)

  -- A command's sequence number is acknowledged, unless it is 0, except in a step that ends on the
  -- ladder part of `SimulatePlayer`: there the old number stays.
  pub simulate_player-last_input_seq :
      (m : Map F) (cmd : InputCmd F) (dt : F) (s : PhysicsState F)
      → (simulate_player fl m cmd dt s).last_input_seq ≡ (
          if s.is_on_ladder && (ladder_step fl m cmd dt s).0
          then s.last_input_seq
          else acknowledged cmd s.last_input_seq)
  unfolding simulate_player
  simulate_player-last_input_seq m cmd dt s = ground (
    arith,
    (ladder_step-Keeps m cmd dt s).seq,
    normal_physics-seq m cmd dt (ladder_step fl m cmd dt s).1,
    normal_physics-seq m cmd dt s,
  )
