-- ===== src/Room.antt =====
-- The game room: SimpleServer/GameRoom.cpp without the physics. Its methods run on the game loop's
-- thread, one after the other. The order of a `std::unordered_map` is the order of the key list.
pub mod Invariant
pub mod Kept
pub mod Loop
pub mod Members
pub mod Owners
pub mod Quiet
pub mod Recipients
pub mod Rounds
pub mod Tick
pub mod Ticked
use simple_server.Prelude.{
  ℕ, zero, suc, ◌+◌, ◌%◌, ◌^◌, Bool, true, false, not, ◌||◌, Option, none, some, List, [], ◌∷◌, map,
  ltb, ◌==◌, if◌then◌else◌, ◌>>=◌, length, is_empty,
}
use simple_server.Keys.{has_key, insert_key, erase_key, others_of}
use simple_server.Opcodes.{
  op_s_enter_game, op_s_player_list, op_s_spawn, op_s_despawn, op_s_player_state,
  op_s_broadcast_move, op_s_attack_result, op_s_chat,
}
use simple_server.SendBuffer.{SendBuffer}
use simple_server.Float.{FloatOps}
use simple_server.Player.{
  Player, Vec2, InputCmd, PhysicsState, set_name, dequeue_input, has_input, zero_input,
}
use simple_server.Physics.{zero_f, client_tick_rate}
use simple_server.Physics.Ladder.{handle_ladder_state}
use simple_server.Physics.Simulate.{simulate_player}
use simple_server.World.{
  PlayerInfo, StateMsg, MoveMsg, AttackMsg, Msg, Task, World, Outside, enter_task, leave_task,
  enter_game_task, chat_task, attack_task, ladder_task, s_enter_game, s_spawn, s_despawn,
  s_player_list, s_player_state, s_broadcast_move, s_attack_result, s_chat, update_player,
  buffer_of, enqueue,
}

module _ {F : Type 0} where
  unfoldable pub player_info : Player F → PlayerInfo F
  player_info p = record {
    player_id = p.player_id;
    name = p.name;
    x = p.phys_state.pos.x;
    y = p.phys_state.pos.y;
    dir = p.phys_state.dir;
    is_moving = p.phys_state.is_moving;
    is_jumping = p.phys_state.is_jumping;
  }

  -- `_players[id] = player`
  unfoldable pub enter : ℕ → World F → World F
  enter id w = record w { players = insert_key id w.players }

module _ (fl : FloatOps) (out : Outside (FloatOps.F fl)) where
  open fl use {F, lit, div}

  send_session : Option ℕ → Option SendBuffer → World F → World F
  send_session none buf w = w
  send_session (some s) buf w = enqueue out s buf w

  unfoldable pub send : ℕ → Option SendBuffer → World F → World F
  unfolding send_session
  send id buf w = send_session (w.objects id).session buf w

  unfoldable pub send_each : List ℕ → Option SendBuffer → World F → World F
  send_each [] buf w = w
  send_each (id ∷ ids) buf w = send_each ids buf (send id buf w)

  -- `Broadcast(buf)`
  unfoldable pub broadcast : Option SendBuffer → World F → World F
  broadcast buf w = send_each w.players buf w

  -- `Broadcast(buf, except)`
  unfoldable pub broadcast_except : ℕ → Option SendBuffer → World F → World F
  broadcast_except except buf w = send_each (others_of except w.players) buf w

  unfoldable pub leave : ℕ → World F → World F
  leave id w =
      if not (has_key id w.players)
      then w
      else (let w1 = broadcast (buffer_of out op_s_despawn (s_despawn (id ∷ []))) w in
          record w1 { players = erase_key id w1.players })

  -- The three sends of `EnterGame`, for a player whose name is set.
  unfoldable pub announce : ℕ → World F → World F
  announce id w =
      let others = others_of id w.players in
      let me = player_info (w.objects id) in
      let w1 = send id (buffer_of out op_s_enter_game (s_enter_game true me)) w in
      let infos = map (λ k. player_info (w1.objects k)) others in
      let w2 = send id (buffer_of out op_s_player_list (s_player_list infos)) w1 in
      send_each others (buffer_of out op_s_spawn (s_spawn (player_info (w2.objects id) ∷ []))) w2

  unfoldable pub enter_game : ℕ → List ℕ → World F → World F
  enter_game id name w =
      if is_empty name || ltb 20 (length name)
      then w
      else if (w.objects id).entered
      then w
      else announce id (update_player id (set_name name) w)

  unfoldable pub broadcast_attack : ℕ → ℕ → ℕ → F → F → World F → World F
  broadcast_attack attacker skill_id attack_type aim_x aim_y w =
      let p = w.objects attacker in
      broadcast
        (buffer_of out op_s_attack_result (
          s_attack_result (record {
            attacker_id = p.player_id;
            skill_id = skill_id;
            attack_type = attack_type;
            origin_x = p.phys_state.pos.x;
            origin_y = p.phys_state.pos.y;
            aim_x = aim_x;
            aim_y = aim_y;
          })))
        w

  unfoldable pub chat : ℕ → List ℕ → ℕ → World F → World F
  chat id message type w =
      let p = w.objects id in
      broadcast (buffer_of out op_s_chat (s_chat p.player_id p.name type message)) w

  with_state : Option (PhysicsState F) → ℕ → World F → Option (World F)
  with_state none id w = none
  with_state (some s) id w = some (update_player id (λ p. record p { phys_state = s }) w)

  -- `none` is the fuel of the ladder loops, which is always enough (`Physics.Run`).
  unfoldable pub ladder_state : ℕ → Bool → F → F → World F → Option (World F)
  unfolding with_state
  ladder_state id on_ladder px py w =
      with_state (handle_ladder_state fl w.map on_ladder px py (w.objects id).phys_state) id w

  -- ── The game loop ──

  unfoldable pub run_task : Task F → World F → Option (World F)
  run_task (enter_task id) w = some (enter id w)
  run_task (leave_task id) w = some (leave id w)
  run_task (enter_game_task id name) w = some (enter_game id name w)
  run_task (chat_task id message type) w = some (chat id message type w)
  run_task (attack_task id skill type x y) w = some (broadcast_attack id skill type x y w)
  run_task (ladder_task id on px py vx vy) w = ladder_state id on px py w

  unfoldable pub run_tasks : List (Task F) → World F → Option (World F)
  run_tasks [] w = some w
  run_tasks (t ∷ ts) w = run_task t w >>= run_tasks ts

  -- The queue is swapped out first: tasks that are posted meanwhile wait for the next round.
  unfoldable pub drain_tasks : World F → Option (World F)
  drain_tasks w = run_tasks w.task_queue (record w { task_queue = [] })

  abbrev pub max_steps_per_tick : ℕ
  max_steps_per_tick = 8

  unfoldable pub client_dt : F
  client_dt = div (lit 1 0) (client_tick_rate fl)

  unfoldable pub simulate : World F → InputCmd F → Player F → Player F
  simulate w cmd p = record p { phys_state = simulate_player fl w.map cmd client_dt p.phys_state }

  -- `while (HasInput() && steps < MAX_STEPS_PER_TICK)`: the steps made, and the player.
  unfoldable pub input_steps : World F → ℕ → Player F → ℕ × Player F
  input_steps w zero p = (0, p)
  input_steps w (suc n) p = elim (has_input p) [
    | true ↦
        let (cmd, p1) = dequeue_input (zero_f fl) p in
        let (steps, p2) = input_steps w n (simulate w cmd p1) in (suc steps, p2)
    | false ↦ (0, p)
  ]

  unfoldable pub idle_steps : World F → ℕ → Player F → Player F
  idle_steps w zero p = p
  idle_steps w (suc n) p = idle_steps w n (simulate w (zero_input (zero_f fl)) p)

  unfoldable pub move_player : World F → Player F → Player F
  move_player w p =
      let (steps, p1) = input_steps w max_steps_per_tick p in
      if steps == 0 then idle_steps w 3 p1 else p1

  -- `state.isGrounded ? 0.f : state.vel.y`
  unfoldable pub shown_vy : PhysicsState F → F
  shown_vy s = if s.is_grounded then zero_f fl else s.vel.y

  unfoldable pub state_msg : Player F → StateMsg F
  unfolding shown_vy
  state_msg p =
      let s = p.phys_state in
      record {
        player_id = p.player_id;
        last_processed_input_seq = s.last_input_seq;
        x = s.pos.x;
        y = s.pos.y;
        vx = s.vel.x;
        vy = shown_vy s;
        is_grounded = s.is_grounded;
        dir = s.dir;
        is_moving = s.is_moving;
        is_jumping = s.is_jumping;
        is_on_ladder = s.is_on_ladder;
      }

  unfoldable pub move_msg : Player F → ℕ → MoveMsg F
  unfolding shown_vy
  move_msg p tick =
      let s = p.phys_state in
      record {
        player_id = p.player_id;
        x = s.pos.x;
        y = s.pos.y;
        vx = s.vel.x;
        vy = shown_vy s;
        dir = s.dir;
        is_grounded = s.is_grounded;
        is_moving = s.is_moving;
        is_jumping = s.is_jumping;
        is_crouching = s.is_crouching;
        is_on_ladder = s.is_on_ladder;
        server_tick = tick;
      }

  -- The body of the loop of `TickAll`.
  unfoldable pub tick_player : ℕ → World F → World F
  tick_player id w =
      if not (w.objects id).entered
      then w
      else (let w1 = update_player id (move_player w) w in
          let w2 =
            send id (buffer_of out op_s_player_state (s_player_state (state_msg (w1.objects id))))
              w1 in
          broadcast_except id
            (buffer_of out op_s_broadcast_move
              (s_broadcast_move (move_msg (w2.objects id) w2.server_tick)))
            w2)

  unfoldable pub tick_players : List ℕ → World F → World F
  tick_players [] w = w
  tick_players (id ∷ ids) w = tick_players ids (tick_player id w)

  unfoldable pub tick_all : World F → World F
  tick_all w =
      let w1 = tick_players w.players w in record w1 { server_tick = (w1.server_tick + 1) % 2 ^ 32 }

  -- One round of `GameLoopThread`.
  unfoldable pub game_round : World F → Option (World F)
  game_round w = drain_tasks w >>= λ w1. some (tick_all w1)
