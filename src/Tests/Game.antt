-- ===== src/Tests/Game.antt =====
-- Concrete runs of SimpleServer: the map, the physics, the players and the room.
use simple_server.Prelude.{
  ℕ, ◌≡◌, refl, ◌≢◌, true, false, not, ◌&&◌, none, some, List, [], ◌∷◌, if◌then◌else◌,
}
use simple_server.Prelude.Int.{ℤ, pos, negsuc, ◌+ℤ◌, ◌-ℤ◌, ◌*ℤ◌}
use simple_server.Tests.Fixed.{fixed, room_map}
use simple_server.Player.{Player, PhysicsState, InputCmd, Vec2, zero_input, initial_state}
use simple_server.Map.{cell_top_y, cell_bottom_y, world_to_cell}
use simple_server.Physics.Simulate.{simulate_player, ladder_step, descend}
use simple_server.Physics.Facts.{acknowledged, simulate_player-last_input_seq}
use simple_server.Physics.Limits.{IsOrdered, IsSlow, simulate_player-IsSlow}
use simple_server.Physics.Descent.{Outcome, descend-Outcome}
use simple_server.Physics.{check_ground, check_wall, check_ceiling}
use simple_server.Physics.Ladder.{get_ladder_extent}
use simple_server.Physics.Collide.{
  foot_row, head_row, stands, covered, blocked, beside, check_ground_lem, check_wall_lem,
  check_ceiling_lem,
}
use simple_server.Physics.Run.{IsRun, steps_on, get_ladder_extent_lem}
use simple_server.World.{World, Outside}
use simple_server.Keys.{has_key, IsUnique}
use simple_server.Room.{leave, move_player}
use simple_server.Room.Tick.{replay, with_buffer, move_player_lem}
use simple_server.Room.Members.{leave_lem}

fixed-IsOrdered : IsOrdered fixed
unfolding ◌+ℤ◌ ◌-ℤ◌ ◌*ℤ◌
fixed-IsOrdered = record {
  max_fall = refl;
  pressed = refl;
  at_rest = refl;
  jumping = refl;
  climbing = refl;
  descending = refl;
}

-- A player four units above the floor, who falls at a speed of 10.
abbrev falling : PhysicsState ℤ
falling = record (initial_state (pos 0)) {
  pos = record { x = pos 50; y = pos 400 };
  vel = record { x = pos 0; y = negsuc 999 };
  is_grounded = false;
}

-- A player in the middle of the ladder.
abbrev climbing : PhysicsState ℤ
climbing = record (initial_state (pos 0)) {
  pos = record { x = pos 50; y = pos 100 };
  is_on_ladder = true;
  ladder_center_x = pos 50;
  ladder_min_y = pos 0;
  ladder_max_y = pos 200;
  last_input_seq = 6;
}

abbrev walk_left : InputCmd ℤ
walk_left = record (zero_input (pos 0)) { input_seq = 7; move_left = true; face_dir = 1 }

abbrev dt : ℤ
dt = pos 2

descend-Outcome_example :
    Outcome fixed room_map false dt 20 falling (descend fixed room_map false dt 20 falling)
descend-Outcome_example = descend-Outcome fixed room_map false dt 20 falling

simulate_player-IsSlow_example :
    IsSlow fixed fixed-IsOrdered (simulate_player fixed room_map walk_left dt falling)
unfolding ◌+ℤ◌ ◌-ℤ◌ ◌*ℤ◌
simulate_player-IsSlow_example =
    simulate_player-IsSlow fixed fixed-IsOrdered room_map walk_left dt falling refl

get_ladder_extent_lem_example :
    (d : ℕ) × (u : ℕ) × IsRun fixed room_map (pos 0) (λ c. c -ℤ pos 1) d (pos 0)
    × IsRun fixed room_map (pos 0) (λ c. c +ℤ pos 1) u (pos 0)
    × (get_ladder_extent fixed room_map (pos 0) (pos 0)
        ≡ some (record {
          center_x = fixed.mul (fixed.add (fixed.of_int (pos 0)) (fixed.lit 5 1)) (pos 100);
          min_y =
              fixed.mul
                (fixed.of_int (steps_on fixed room_map (pos 0) (λ c. c -ℤ pos 1) d (pos 0)))
                (pos 100);
          max_y =
              fixed.mul
                (fixed.of_int
                  (steps_on fixed room_map (pos 0) (λ c. c +ℤ pos 1) u (pos 0) +ℤ pos 1))
                (pos 100);
        }))
get_ladder_extent_lem_example = get_ladder_extent_lem fixed room_map (pos 0) (pos 0)

simulate_player-last_input_seq_example :
    (simulate_player fixed room_map walk_left dt climbing).last_input_seq ≡ (
      if true && (ladder_step fixed room_map walk_left dt climbing).0
      then 6
      else acknowledged fixed walk_left 6)
simulate_player-last_input_seq_example =
    simulate_player-last_input_seq fixed room_map walk_left dt climbing

-- ── The input buffer ──

abbrev idle_player : Player ℤ
idle_player = record {
  player_id = 4;
  name = [];
  session = none;
  entered = false;
  phys_state = initial_state (pos 0);
  input_buffer = [];
}

abbrev two_commands : List (InputCmd ℤ)
two_commands = walk_left ∷ zero_input (pos 0) ∷ []

-- ── The room ──

-- Players 4 and 9 are in the room.
abbrev lobby : World ℤ
lobby = record {
  objects = λ id. record idle_player { player_id = id; session = some id };
  players = 4 ∷ 9 ∷ [];
  map = room_map;
  server_tick = 0;
  task_queue = [];
  session_player = λ s. some s;
  next_player_id = 10;
  calls = [];
}

-- Every message serialises to one byte, and no session closes.
abbrev quiet : Outside ℤ
quiet = record { serialize = λ m. some (1 ∷ []); closes = λ calls s. false }

lobby-IsUnique : IsUnique lobby.players
unfolding has_key
lobby-IsUnique = (refl, (refl, tt))

leave_lem_example :
    IsUnique (leave fixed quiet 4 lobby).players
    × (has_key 4 (leave fixed quiet 4 lobby).players ≡ false)
    × ((k : ℕ) → k ≢ 4 → has_key k (leave fixed quiet 4 lobby).players ≡ has_key k (4 ∷ 9 ∷ []))
leave_lem_example = leave_lem fixed quiet 4 lobby lobby-IsUnique

move_player_lem_example :
    move_player fixed quiet lobby (record idle_player { input_buffer = two_commands })
    ≡ replay fixed quiet lobby two_commands (with_buffer fixed quiet [] idle_player)
move_player_lem_example =
    move_player_lem fixed quiet lobby (record idle_player { input_buffer = two_commands })

-- ── Collisions ──

-- Just over the floor of the room.
abbrev over_floor : Vec2 ℤ
over_floor = record { x = pos 50; y = pos 55 }

check_ground_lem_example : check_ground fixed room_map over_floor false ≡ record {
  hit = stands fixed room_map over_floor false;
  ground_y =
      if stands fixed room_map over_floor false
      then cell_top_y fixed room_map (foot_row fixed room_map over_floor)
      else pos 0;
}
unfolding ◌+ℤ◌ ◌-ℤ◌ ◌*ℤ◌ cell_top_y world_to_cell
check_ground_lem_example = check_ground_lem fixed room_map over_floor false refl refl refl

check_ceiling_lem_example : check_ceiling fixed room_map over_floor ≡ record {
  hit = covered fixed room_map over_floor;
  ceil_y =
      if covered fixed room_map over_floor
      then cell_bottom_y fixed room_map (head_row fixed room_map over_floor)
      else pos 0;
}
unfolding ◌+ℤ◌ ◌-ℤ◌ ◌*ℤ◌ cell_bottom_y world_to_cell
check_ceiling_lem_example = check_ceiling_lem fixed room_map over_floor refl refl refl

check_wall_lem_example :
    let hit = true && not false && blocked fixed room_map over_floor (pos 100) in
    check_wall fixed room_map over_floor (pos 100) ≡ record {
      hit = hit;
      wall_x = if hit then beside fixed room_map over_floor (pos 100) else pos 0;
    }
check_wall_lem_example = check_wall_lem fixed room_map over_floor (pos 100)
