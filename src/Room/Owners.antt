-- ===== src/Room/Owners.antt =====
-- A round of the game loop (SimpleServer/GameRoom.cpp) leaves to every session its player.
use simple_server.Prelude.{
  ℕ, ◌≡◌, refl, ◌∙◌, not, ◌||◌, Option, none, some, List, [], ◌∷◌, ltb, length, is_empty,
  along_some, if_both, bind-some,
}
use simple_server.Float.{FloatOps}
use simple_server.Keys.{has_key}
use simple_server.Player.{PhysicsState, set_name}
use simple_server.World.{
  World, Outside, Task, enter_task, leave_task, enter_game_task, chat_task, attack_task,
  ladder_task, update_player,
}
use simple_server.Room.{
  enter, leave, enter_game, broadcast, broadcast_except, broadcast_attack, chat, with_state,
  ladder_state, run_task, run_tasks, drain_tasks, move_player, tick_player, tick_players, tick_all,
  game_round,
}
use simple_server.Room.Quiet.{send-IsQuiet, send_each-IsQuiet}
use simple_server.Room.Members.{announce-IsQuiet}

module _ (fl : FloatOps) (out : Outside (FloatOps.F fl)) where
  open fl use {F}

  abbrev Same : World F → World F → Type 0
  Same w v = v.session_player ≡ w.session_player

  leave-Same : (id : ℕ) (w : World F) → Same w (leave fl out id w)
  unfolding leave broadcast
  leave-Same id w =
      if_both (Same w) (not (has_key id w.players)) _ _ refl
        (send_each-IsQuiet fl out w.players _ w).same_owners

  enter_game-Same : (id : ℕ) (name : List ℕ) (w : World F) → Same w (enter_game fl out id name w)
  unfolding enter_game update_player
  enter_game-Same id name w = if_both (Same w) (is_empty name || ltb 20 (length name)) _ _ refl (
      if_both (Same w) (w.objects id).entered _ _ refl
        (announce-IsQuiet fl out id (update_player id (set_name name) w)).same_owners)

  with_state-Same :
      (m : Option (PhysicsState F)) (id : ℕ) (w v : World F)
      → with_state fl out m id w ≡ some v
      → Same w v
  unfolding with_state update_player
  with_state-Same none id w v e = absurd (cc)
  with_state-Same (some s) id w v e = along_some (Same w) e refl

  run_task-Same : (t : Task F) (w v : World F) → run_task fl out t w ≡ some v → Same w v
  unfolding run_task enter broadcast_attack chat broadcast ladder_state
  run_task-Same (enter_task id) w v e = along_some (Same w) e refl
  run_task-Same (leave_task id) w v e = along_some (Same w) e (leave-Same id w)
  run_task-Same (enter_game_task id name) w v e = along_some (Same w) e (enter_game-Same id name w)
  run_task-Same (chat_task id message type) w v e =
      along_some (Same w) e (send_each-IsQuiet fl out w.players _ w).same_owners
  run_task-Same (attack_task id skill type x y) w v e =
      along_some (Same w) e (send_each-IsQuiet fl out w.players _ w).same_owners
  run_task-Same (ladder_task id on px py vx vy) w v e = with_state-Same _ id w v e

  run_tasks-Same : (ts : List (Task F)) (w v : World F) → run_tasks fl out ts w ≡ some v → Same w v
  unfolding run_tasks
  run_tasks-Same [] w v e = along_some (Same w) e refl
  run_tasks-Same (t ∷ ts) w v e =
      let (u, a, b) = bind-some (run_task fl out t w) (run_tasks fl out ts) v e in
      run_tasks-Same ts u v b ∙ run_task-Same t w u a

  tick_player-Same : (id : ℕ) (w : World F) → Same w (tick_player fl out id w)
  unfolding tick_player broadcast_except update_player
  tick_player-Same id w =
      let w1 = update_player id (move_player fl out w) w in
      if_both (Same w) (not (w.objects id).entered) _ _ refl
        ((send_each-IsQuiet fl out _ _ _).same_owners ∙ (send-IsQuiet fl out id _ w1).same_owners)

  tick_players-Same : (ids : List ℕ) (w : World F) → Same w (tick_players fl out ids w)
  unfolding tick_players
  tick_players-Same [] w = refl
  tick_players-Same (id ∷ ids) w =
      tick_players-Same ids (tick_player fl out id w) ∙ tick_player-Same id w

  pub game_round-owners :
      (w v : World F) → game_round fl out w ≡ some v → v.session_player ≡ w.session_player
  unfolding game_round drain_tasks tick_all
  game_round-owners w v e =
      let (u, a, b) =
        bind-some (run_tasks fl out w.task_queue (record w { task_queue = [] })) _ v e in
      along_some (Same w) b (
        tick_players-Same u.players u
        ∙ run_tasks-Same w.task_queue (record w { task_queue = [] }) u a)
