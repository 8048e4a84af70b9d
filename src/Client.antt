-- ===== src/Client.antt =====
-- The bots of DummyClient: DummyClient/ClientPacketHandler.cpp and `RunDummyBot` of
-- DummyClient/DummyClientMain.cpp. A bot has a service of its own, in client mode. protobuf and
-- `std::to_string` are an interface; of a parsed message the handler uses nothing but prints.
-- `std::cout` and the pause between two chats are left out.
pub mod Bot
pub mod Refused
use simple_server.Prelude.{
  ℕ, Bool, true, false, not, ◌||◌, Option, none, some, List, [], ◌∷◌, ◌++◌, ◌==◌, if◌then◌else◌,
}
use simple_server.Opcodes.{
  op_s_enter_game, op_s_spawn, op_s_despawn, op_s_chat, op_s_player_list, op_s_pong,
  op_c_enter_game, op_c_chat,
}
use simple_server.Packet.{Packet, make_packet_from_proto}
use simple_server.Session.{Session, Env, enqueue_packet}
use simple_server.Service.{
  Net, Service, Os, Callbacks, session_env, new_service, connect_to, stop, broadcast_packet,
}
use simple_server.Service.Start.{start_client}

-- Does `ParseFromArray` succeed? What does `SerializeToString` give for a name and for a chat line?
pub record Protobuf : Type 0 where
  pub s_enter_game : List ℕ → Bool
  pub s_spawn : List ℕ → Bool
  pub s_despawn : List ℕ → Bool
  pub s_chat : List ℕ → Bool
  pub s_player_list : List ℕ → Bool
  pub c_enter_game : List ℕ → Option (List ℕ)
  pub c_chat : List ℕ → Option (List ℕ)
  pub to_string : ℕ → List ℕ

-- The opcodes that the handler has a case for.
unfoldable pub has_case : ℕ → Bool
has_case op =
    op == op_s_enter_game
    || op == op_s_spawn
    || op == op_s_despawn
    || op == op_s_chat
    || op == op_s_player_list
    || op == op_s_pong

module _ (pb : Protobuf) where
  unfoldable pub handle_enter_game : Packet → Bool
  handle_enter_game pkt = if not (pb.s_enter_game pkt.payload) then false else true

  unfoldable pub handle_spawn : Packet → Bool
  handle_spawn pkt = if not (pb.s_spawn pkt.payload) then false else true

  unfoldable pub handle_despawn : Packet → Bool
  handle_despawn pkt = if not (pb.s_despawn pkt.payload) then false else true

  unfoldable pub handle_chat : Packet → Bool
  handle_chat pkt = if not (pb.s_chat pkt.payload) then false else true

  unfoldable pub handle_player_list : Packet → Bool
  handle_player_list pkt = if not (pb.s_player_list pkt.payload) then false else true

  unfoldable pub handle_pong : Packet → Bool
  handle_pong pkt = true

  unfoldable pub handle_packet : Packet → Bool
  handle_packet pkt =
      let op = pkt.header.opcode in
      if op == op_s_enter_game
      then handle_enter_game pkt
      else if op == op_s_spawn
      then handle_spawn pkt
      else if op == op_s_despawn
      then handle_despawn pkt
      else if op == op_s_chat
      then handle_chat pkt
      else if op == op_s_player_list
      then handle_player_list pkt
      else if op == op_s_pong
      then handle_pong pkt
      else false

  -- "더미봇_", and "안녕하세요 더미봇_".
  abbrev pub bot_prefix : List ℕ
  bot_prefix = 235 ∷ 141 ∷ 148 ∷ 235 ∷ 175 ∷ 184 ∷ 235 ∷ 180 ∷ 135 ∷ 95 ∷ []

  abbrev pub greeting : List ℕ
  greeting =
      236 ∷ 149 ∷ 136 ∷ 235 ∷ 133 ∷ 149 ∷ 237 ∷ 149 ∷ 152 ∷ 236 ∷ 132 ∷ 184 ∷ 236 ∷ 154 ∷ 148 ∷ 32
      ∷ bot_prefix

  unfoldable pub bot_name : ℕ → List ℕ
  bot_name id = bot_prefix ++ pb.to_string id

  unfoldable pub chat_line : ℕ → ℕ → List ℕ
  chat_line id tick =
      greeting ++ (pb.to_string id ++ ((32 ∷ 40 ∷ []) ++ (pb.to_string tick ++ (41 ∷ []))))

  -- `MakePacketFromProto`; a fault of it, which `make_packet_from_proto_lem` rules out, is no packet.
  unfoldable pub packet_of : ℕ → Option (List ℕ) → List ℕ
  packet_of opcode serialized = elim (make_packet_from_proto opcode serialized) [
    | none ↦ []
    | some packet ↦ packet
  ]

  module _ {W : Type 0} (os : Os W) where
    -- What `RunDummyBot` sets, with the handler and `SetOnConnected` left out: what a session calls
    -- while it sends its first packet.
    abbrev pub connecting_callbacks : Callbacks W
    connecting_callbacks = record {
      packet_handler = λ id p n s. (false, n, s);
      on_connected = none;
      on_disconnected = some (λ id n. n);
    }

    unfoldable pub say_hello : ℕ → ℕ → Net W → Session → Net W × Session
    say_hello bot id n s =
        enqueue_packet (session_env os connecting_callbacks id)
          (packet_of op_c_enter_game (pb.c_enter_game (bot_name bot))) n s

    abbrev pub bot_callbacks : ℕ → Callbacks W
    bot_callbacks bot = record {
      packet_handler = λ id p n s. (handle_packet p, n, s);
      on_connected = some (λ id n s. say_hello bot id n s);
      on_disconnected = some (λ id n. n);
    }

    -- What session `id` of the bot calls.
    abbrev pub bot_env : ℕ → ℕ → Env (Net W)
    bot_env bot id = session_env os (bot_callbacks bot) id

    -- `~NetService`
    unfoldable pub delete_service : ℕ → Service W → Service W
    delete_service bot v = stop os (bot_callbacks bot) v

    -- What follows `StartClient` in `RunDummyBot`, up to the loop. The flag says that the loop begins;
    -- without it the bot is destroyed.
    unfoldable pub connect_bot : ℕ → Service W → Bool × Service W
    connect_bot bot v =
        let (connected, v1) = connect_to os (bot_callbacks bot) v in
        if not connected
        then (false, delete_service bot (stop os (bot_callbacks bot) v1))
        else (true, v1)

    unfoldable pub run_dummy_bot : ℕ → W → Bool × Service W
    run_dummy_bot bot w =
        let (started, v) = start_client os (bot_callbacks bot) 1 (new_service w) in
        if not started then (false, delete_service bot v) else connect_bot bot v

    -- A round of the endless loop of `RunDummyBot`.
    unfoldable pub chat_round : ℕ → ℕ → Service W → Service W
    chat_round bot tick v =
        broadcast_packet os (bot_callbacks bot)
          (packet_of op_c_chat (pb.c_chat (chat_line bot tick))) v
