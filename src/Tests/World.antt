-- ===== src/Tests/World.antt =====
-- Concrete runs of the room and of the game as a whole, and a map read from a text.
use simple_server.Prelude.{
  ℕ, ◌+◌, ◌*◌, ◌≡◌, refl, sym, true, not, Option, none, some, List, [], ◌∷◌, ◌++◌, arith,
  if◌then◌else◌, is_empty,
}
use simple_server.Player.{Player, new_player}
use simple_server.Room.Ticked.{state_buffer, move_buffer, tick_player-calls}
use text.Mathlib.Text.{◌==◌ as str_eq}
use simple_server.Prelude.Int.{ℤ, pos}
use simple_server.SendBuffer.{SendBuffer}
use simple_server.Keys.{others_of, has_key}
use simple_server.Map.{Map, pack_cell, insert, contains, is_solid, is_ladder, is_floating_ground}
use simple_server.Map.Load.{
  JsonOps, load_json, load_layers, load_layer, fill_target, load_tiles, read_cell_size,
}
use simple_server.Map.Contents.{draws, load_json_lem}
use simple_server.World.{World, on_connected}
use simple_server.Room.{broadcast, broadcast_except, game_round, move_player, tick_player}
use simple_server.Room.Invariant.{IsRoom}
use simple_server.Room.Recipients.{calls_to, call_of, broadcast-calls}
use simple_server.Room.Rounds.{game_round_total}
use simple_server.Room.Loop.{game_loop, start_game_loop, lag_after, game_loop-on_time}
use simple_server.Game.{make_player, empty_room, Reach, opened, next, connects, ticks, Reach-IsRoom}
use simple_server.Tests.Fixed.{fixed, room_map, parsers, out}

-- Sessions 1 and 2 have connected, and the room has made a round.
abbrev connected : World ℤ
connected =
    on_connected (make_player fixed out parsers) 2
      (on_connected (make_player fixed out parsers) 1 (empty_room fixed out parsers room_map))

no_player_of_1 : (empty_room fixed out parsers room_map).session_player 1 ≡ none
unfolding empty_room
no_player_of_1 = refl

no_player_of_2 :
    (on_connected
        (make_player fixed out parsers)
        1
        (empty_room fixed out parsers room_map)).session_player
      2
    ≡ none
unfolding empty_room on_connected
no_player_of_2 = refl

abbrev connected_reached : Reach fixed out parsers room_map connected
connected_reached =
    next (next opened (connects 1 no_player_of_1 refl)) (connects 2 no_player_of_2 refl)

-- The round that runs their tasks.
abbrev played : World ℤ
played = (game_round_total fixed out connected).0

game_round_total_example : (v : World ℤ) × (game_round fixed out connected ≡ some v)
game_round_total_example = game_round_total fixed out connected

Reach-IsRoom_example : IsRoom fixed out played
Reach-IsRoom_example =
    Reach-IsRoom fixed out parsers room_map
      (next connected_reached (ticks (game_round_total fixed out connected).1))

abbrev message : Option SendBuffer
message = some (record { buffer = 1 ∷ 2 ∷ []; write_size = 2 })

-- Session 2 is closed by the call.
broadcast-calls_example :
    ((broadcast fixed out message played).calls
      ≡ played.calls ++ calls_to played.players message played)
    × ((broadcast_except fixed out 1 message played).calls
        ≡ played.calls ++ calls_to (others_of 1 played.players) message played)
broadcast-calls_example = broadcast-calls fixed out 1 message played (
    Reach-IsRoom fixed out parsers room_map
      (next connected_reached (ticks (game_round_total fixed out connected).1)))

-- Both players have entered the game.
abbrev entered_player : ℕ → Player ℤ
entered_player k = record (make_player fixed out parsers k) { session = some k; entered = true }

abbrev entered_room : World ℤ
entered_room = record (empty_room fixed out parsers room_map) {
  players = 1 ∷ 2 ∷ [];
  objects = entered_player;
  session_player = λ s. some s;
}

entered_room-IsRoom : IsRoom fixed out entered_room
unfolding empty_room make_player has_key new_player
entered_room-IsRoom = record {
  unique = (refl, (refl, tt));
  tick = omega arith;
  player = λ k. record { bounded = omega arith; still = refl };
  owned = λ k s e. sym e;
}

tick_player-calls_example :
    let p = move_player fixed out entered_room (entered_player 1) in
    (tick_player fixed out 1 entered_room).calls
    ≡ entered_room.calls
      ++ (call_of (some 1) (state_buffer fixed out p)
          ++ calls_to (2 ∷ []) (move_buffer fixed out p entered_room.server_tick) entered_room)
unfolding others_of
tick_player-calls_example = tick_player-calls fixed out 1 entered_room entered_room-IsRoom refl

-- ── A text with one layer of one tile ──

pub data Node : Type 0 where
  document layer_array ground_layer tile_array tile : Node

abbrev contents : Node → List Node
contents layer_array = ground_layer ∷ []
contents tile_array = tile ∷ []
contents document = []
contents ground_layer = []
contents tile = []

abbrev child : Node → Node
child document = layer_array
child ground_layer = tile_array
child layer_array = layer_array
child tile_array = tile_array
child tile = tile

abbrev pub json : JsonOps ℤ
json = record {
  Json = Node;
  read_file = λ path. some path;
  parse = λ text. some document;
  has = λ n key. true;
  at = λ n key. child n;
  is_array = λ n. not (is_empty (contents n));
  elements = contents;
  value_string = λ n key default. some "Ground";
  value_float = λ n key default. some (pos 50);
  value_int = λ n key default. if str_eq key "x" then some (pos 3) else some default;
}

abbrev read_map : Map ℤ
read_map = record {
  solid = pack_cell (pos 3) (pos 0) ∷ [];
  ladder = [];
  floating_ground = [];
  cell_size_x = pos 100;
  cell_size_y = pos 50;
  loaded = true;
}

-- The map is read over an old one.
abbrev old_map : Map ℤ
old_map = record room_map { cell_size_y = pos 50 }

it_loads : load_json fixed json document old_map ≡ some (true, read_map)
unfolding load_json load_layers load_layer read_cell_size fill_target load_tiles insert contains
it_loads = refl

load_json_lem_example :
    let ls = ground_layer ∷ [] in
    let k = pack_cell (pos 3) (pos 0) in
    (is_solid read_map (pos 3) (pos 0) ≡ draws fixed json "Ground" ls k)
    × (is_ladder read_map (pos 3) (pos 0) ≡ draws fixed json "Ladder" ls k)
    × (is_floating_ground read_map (pos 3) (pos 0) ≡ draws fixed json "Floating Ground" ls k)
    × (read_map.loaded ≡ true)
load_json_lem_example = load_json_lem fixed json document old_map read_map (pos 3) (pos 0) it_loads

-- A long round, and two short ones that make up for it.
game_loop-on_time_example :
    (v : World ℤ) × (game_loop fixed out
        (70 ∷ 40 ∷ 10 ∷ [])
        (start_game_loop fixed out 1000 connected)
      ≡ some (record {
        now = 1000 + 50 * 3 + lag_after fixed out 0 (70 ∷ 40 ∷ 10 ∷ []);
        next_tick = 1000 + 50 * (3 + 1);
        world = v;
      }))
game_loop-on_time_example = game_loop-on_time fixed out (70 ∷ 40 ∷ 10 ∷ []) 1000 connected
