-- ===== src/Tests/Server.antt =====
-- Concrete runs of the packet handler of the server.
use simple_server.Prelude.{
  ℕ, ◌+◌, Bool, true, false, none, some, [], ◌∷◌, ◌==◌, if◌then◌else◌, length,
}
use simple_server.Opcodes.{op_c_attack}
use simple_server.Packet.{Packet}
use simple_server.Player.{Player, initial_state, zero_input}
use simple_server.World.{World, Site, Outside}
use simple_server.Handler.{Parsers, dispatch}
use simple_server.Handler.Posting.{IsPosting, dispatch-IsPosting}
use simple_server.Handler.Server.{server_callbacks}
use simple_server.Service.{Net, Os, Callbacks}

abbrev fresh_player : ℕ → Player ℕ
fresh_player id = record {
  player_id = id;
  name = [];
  session = none;
  entered = false;
  phys_state = initial_state 0;
  input_buffer = [];
}

-- Player 4 of session 1 is in the room and has entered.
abbrev lobby : World ℕ
lobby = record {
  objects = λ id. record (fresh_player id) { entered = true; session = some 1 };
  players = 4 ∷ [];
  map = record {
    solid = [];
    ladder = [];
    floating_ground = [];
    cell_size_x = 1;
    cell_size_y = 1;
    loaded = false;
  };
  server_tick = 0;
  task_queue = [];
  session_player = λ s. if s == 1 then some 4 else none;
  next_player_id = 5;
  calls = [];
}

-- Every message parses, and carries its payload.
abbrev parsers : Parsers ℕ
parsers = record {
  enter_game_name = λ bytes. some bytes;
  input_cmd = λ bytes. some (zero_input 0);
  chat_req = λ bytes. some (record { message = bytes; type = 0 });
  attack_req = λ bytes. some (record { skill_id = length bytes; attack_type = 1; aim_dir = none });
  item_id = λ bytes. some 3;
  zone_id = λ bytes. some 2;
  ladder_req = λ bytes. none;
  client_time = λ bytes. some 7;
}

abbrev quiet : Outside ℕ
quiet = record { serialize = λ m. some (1 ∷ []); closes = λ calls s. false }

-- The system counts its calls.
abbrev counted : Site ℕ ℕ → Bool × Site ℕ ℕ
counted w = (true, record w { system = w.system + 1 })

abbrev os : Os (Site ℕ ℕ)
os = record {
  open_socket = counted;
  bind_socket = counted;
  listen_socket = counted;
  connect_socket = counted;
  accept_socket = counted;
  create_port = counted;
  create_thread = counted;
  register_socket = λ id w. counted w;
  recv = λ id w. counted w;
  send_bytes = λ id b w. counted w;
}

abbrev clock : ℕ → ℕ
clock calls = 100 + calls

abbrev site : Site ℕ ℕ
site = record { game = lobby; system = 0 }

-- The lobby with the set of sessions of the server.
abbrev served : Net (Site ℕ ℕ)
served = record { sessions = 1 ∷ []; world = site }

abbrev packet_with : ℕ → Packet
packet_with op = record { header = record { size = 6; opcode = op }; payload = 8 ∷ 9 ∷ [] }

abbrev callbacks : Callbacks (Site ℕ ℕ)
callbacks = server_callbacks parsers 0 quiet os clock fresh_player true

dispatch-IsPosting_example :
    IsPosting lobby (dispatch parsers 0 quiet true 1 (packet_with op_c_attack) lobby).1
dispatch-IsPosting_example =
    dispatch-IsPosting parsers 0 quiet true 1 (packet_with op_c_attack) lobby
