-- ===== src/Room/Rounds.antt =====
-- Every round of `GameLoopThread` (SimpleServer/GameRoom.cpp) ends: the only loops that are not over a
-- list are those of `GetLadderExtent`.
use simple_server.Prelude.{
  ℕ, ◌≡◌, refl, Bool, not, Option, none, some, List, [], ◌∷◌, ◌>>=◌, if_both,
}
use simple_server.Prelude.Int.{ℤ}
use simple_server.Float.{FloatOps}
use simple_server.Map.{Map, is_ladder}
use simple_server.Player.{PhysicsState}
use simple_server.Physics.Ladder.{entry_extent, handle_ladder_state}
use simple_server.Physics.Run.{get_ladder_extent_lem}
use simple_server.World.{
  World, Outside, Task, enter_task, leave_task, enter_game_task, chat_task, attack_task,
  ladder_task,
}
use simple_server.Room.{with_state, ladder_state, run_task, run_tasks, drain_tasks, game_round}

-- There is a result.
abbrev Ends : {A : Type 0} → Option A → Type 0
Ends {A} m = (a : A) × (m ≡ some a)

bind-Ends :
    {A B : Type 0} (m : Option A) (f : A → Option B)
    → Ends m
    → ((a : A) → Ends (f a))
    → Ends (m >>= f)
bind-Ends none f (a, e) h = absurd (cc)
bind-Ends (some b) f e h = h b

module _ (fl : FloatOps) (out : Outside (FloatOps.F fl)) where
  open fl use {F}

  entry_extent-Ends : (m : Map F) (px py : F) (cx cy : ℤ) → Ends (entry_extent fl m px py cx cy)
  unfolding entry_extent
  entry_extent-Ends m px py cx cy =
      let (d, u, r, t, e) = get_ladder_extent_lem fl m cx cy in
      if_both Ends (is_ladder m cx cy) _ _ (_, e) (_, refl)

  handle_ladder_state-Ends :
      (m : Map F) (on : Bool) (px py : F) (s : PhysicsState F)
      → Ends (handle_ladder_state fl m on px py s)
  unfolding handle_ladder_state
  handle_ladder_state-Ends m on px py s =
      if_both Ends (not on) _ _ (_, refl)
        (if_both Ends (not m.loaded) _ _ (_, refl)
          (bind-Ends _ _ (entry_extent-Ends m px py _ _) (λ e. (_, refl))))

  with_state-Ends :
      (m : Option (PhysicsState F)) (id : ℕ) (w : World F)
      → Ends m
      → Ends (with_state fl out m id w)
  unfolding with_state
  with_state-Ends none id w (s, e) = absurd (cc)
  with_state-Ends (some s) id w h = (_, refl)

  run_task-Ends : (t : Task F) (w : World F) → Ends (run_task fl out t w)
  unfolding run_task ladder_state
  run_task-Ends (enter_task id) w = (_, refl)
  run_task-Ends (leave_task id) w = (_, refl)
  run_task-Ends (enter_game_task id name) w = (_, refl)
  run_task-Ends (chat_task id message type) w = (_, refl)
  run_task-Ends (attack_task id skill type x y) w = (_, refl)
  run_task-Ends (ladder_task id on px py vx vy) w =
      with_state-Ends _ id w (handle_ladder_state-Ends w.map on px py (w.objects id).phys_state)

  run_tasks-Ends : (ts : List (Task F)) (w : World F) → Ends (run_tasks fl out ts w)
  unfolding run_tasks
  run_tasks-Ends [] w = (w, refl)
  run_tasks-Ends (t ∷ ts) w =
      bind-Ends (run_task fl out t w) (run_tasks fl out ts) (run_task-Ends t w) (run_tasks-Ends ts)

  -- Every round of the game loop ends, whatever tasks wait and whoever is in the room.
  pub game_round_total : (w : World F) → (v : World F) × (game_round fl out w ≡ some v)
  unfolding game_round drain_tasks
  game_round_total w =
      bind-Ends (run_tasks fl out w.task_queue (record w { task_queue = [] })) _
        (run_tasks-Ends w.task_queue (record w { task_queue = [] })) (λ u. (_, refl))
