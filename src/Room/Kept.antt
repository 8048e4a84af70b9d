-- ===== src/Room/Kept.antt =====
-- A tick, and so a round of the game loop, keeps the room in order: SimpleServer/GameRoom.cpp.
use simple_server.Prelude.{
  ℕ, zero, suc, ◌≤◌, ◌≡◌, refl, not, some, List, [], ◌∷◌, arith, length, is_empty, take, drop,
  length-drop, along_some, if_both, bind-some,
}
use simple_server.Float.{FloatOps}
use simple_server.Player.{Player, InputCmd, zero_input}
use simple_server.Physics.{zero_f}
use simple_server.Physics.Facts.{simulate_player-IsStill}
use simple_server.World.{World, Outside, update_player}
use simple_server.Room.{
  broadcast_except, drain_tasks, run_tasks, client_dt, simulate, idle_steps, move_player,
  tick_player, tick_players, tick_all, game_round,
}
use simple_server.Room.Quiet.{send-IsQuiet}
use simple_server.Room.Tick.{replay, with_buffer, move_player_lem}
use simple_server.Room.Invariant.{
  IsPlayer, IsRoom, IsQuiet-IsRoom, update-IsRoom, send_each-IsRoom, run_tasks-IsRoom,
}

module _ (fl : FloatOps) (out : Outside (FloatOps.F fl)) where
  open fl use {F}

  simulate-IsPlayer :
      (w : World F) (cmd : InputCmd F) (p : Player F)
      → IsPlayer fl out p
      → IsPlayer fl out (simulate fl out w cmd p)
  unfolding simulate
  simulate-IsPlayer w cmd p h = record {
    bounded = h.bounded;
    still = simulate_player-IsStill fl w.map cmd (client_dt fl out) p.phys_state h.still;
  }

  replay-IsPlayer :
      (w : World F) (cs : List (InputCmd F)) (p : Player F)
      → IsPlayer fl out p
      → IsPlayer fl out (replay fl out w cs p) × ((replay fl out w cs p).session ≡ p.session)
  unfolding simulate
  replay-IsPlayer w [] p h = (h, refl)
  replay-IsPlayer w (c ∷ cs) p h =
      replay-IsPlayer w cs (simulate fl out w c p) (simulate-IsPlayer w c p h)

  idle_steps-IsPlayer :
      (w : World F) (n : ℕ) (p : Player F)
      → IsPlayer fl out p
      → IsPlayer fl out (idle_steps fl out w n p) × ((idle_steps fl out w n p).session ≡ p.session)
  unfolding idle_steps simulate
  idle_steps-IsPlayer w zero p h = (h, refl)
  idle_steps-IsPlayer w (suc n) p h =
      idle_steps-IsPlayer w n (simulate fl out w (zero_input (zero_f fl)) p)
        (simulate-IsPlayer w (zero_input (zero_f fl)) p h)

  pub moved-IsPlayer :
      (w : World F) (p : Player F)
      → IsPlayer fl out p
      → IsPlayer fl out (move_player fl out w p) × ((move_player fl out w p).session ≡ p.session)
  moved-IsPlayer w p h =
      let rest = drop 8 p.input_buffer in
      let q = with_buffer fl out rest p in
      let b : length rest ≤ 32 = omega (arith, length-drop 8 p.input_buffer, h.bounded) in
      rw (move_player_lem fl out w p) (
        if_both (λ (r : Player F). IsPlayer fl out r × (r.session ≡ p.session))
          (is_empty p.input_buffer) _ _ (idle_steps-IsPlayer w 3 p h)
          (replay-IsPlayer w (take 8 p.input_buffer) q (record { bounded = b; still = h.still })))

  pub move_player-IsRoom :
      (id : ℕ) (w : World F)
      → IsRoom fl out w
      → IsRoom fl out (update_player id (move_player fl out w) w)
  move_player-IsRoom id w g =
      update-IsRoom fl out id (move_player fl out w) w (λ p h. moved-IsPlayer w p h) g

  tick_player-IsRoom :
      (id : ℕ) (w : World F) → IsRoom fl out w → IsRoom fl out (tick_player fl out id w)
  unfolding tick_player broadcast_except
  tick_player-IsRoom id w g =
      let w1 = update_player id (move_player fl out w) w in
      let g1 = move_player-IsRoom id w g in
      if_both (IsRoom fl out) (not (w.objects id).entered) w _ g (
        send_each-IsRoom fl out _ _ _ (IsQuiet-IsRoom fl out w1 _ (send-IsQuiet fl out id _ w1) g1))

  tick_players-IsRoom :
      (ids : List ℕ) (w : World F) → IsRoom fl out w → IsRoom fl out (tick_players fl out ids w)
  unfolding tick_players
  tick_players-IsRoom [] w g = g
  tick_players-IsRoom (id ∷ ids) w g =
      tick_players-IsRoom ids (tick_player fl out id w) (tick_player-IsRoom id w g)

  tick_all-IsRoom : (w : World F) → IsRoom fl out w → IsRoom fl out (tick_all fl out w)
  unfolding tick_all
  tick_all-IsRoom w g =
      let h = tick_players-IsRoom w.players w g in
      record { unique = h.unique; tick = omega arith; player = h.player; owned = h.owned }

  -- A round of the game loop keeps the room in order.
  pub game_round-IsRoom :
      (w v : World F) → IsRoom fl out w → game_round fl out w ≡ some v → IsRoom fl out v
  unfolding game_round drain_tasks
  game_round-IsRoom w v g e =
      let w0 = record w { task_queue = [] } in
      let g0 : IsRoom fl out w0 = record {
        unique = g.unique;
        tick = g.tick;
        player = g.player;
        owned = g.owned;
      } in
      let (u, a, b) = bind-some (run_tasks fl out w.task_queue w0) _ v e in
      along_some (IsRoom fl out) b
        (tick_all-IsRoom u (run_tasks-IsRoom fl out w.task_queue w0 u g0 a))
