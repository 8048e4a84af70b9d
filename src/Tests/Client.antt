-- ===== src/Tests/Client.antt =====
-- Concrete runs of a bot of DummyClient, of its service and of its session.
use simple_server.Prelude.{ℕ, ◌+◌, ◌≡◌, refl, Bool, true, false, some, List, [], ◌∷◌, arith}
use simple_server.Opcodes.{op_s_player_state, is_valid_opcode}
use simple_server.SendBuffer.{SendBuffer, make_send_buffer, memcpy, copy_from}
use simple_server.Packet.{make_packet_from_proto, make_packet, header_bytes, copy_payload}
use simple_server.Player.{dir_none}
use simple_server.World.{Outside, Msg, s_player_state, packet_buffer, buffer_of}
use simple_server.Session.{
  Session, Env, new_session, start, close, on_recv_complete, post_recv, enqueue_packet,
  enqueue_send, enqueue_locked, post_front, post_send_front_no_lock, close_if, release,
}
use simple_server.Session.Ends.{Answer, receives, transmits, answers, answers-deleted}
use simple_server.Keys.{has_key, insert_key}
use simple_server.Service.{
  Net, Service, Os, Callbacks, new_service, connect_to, stop, is_client,
  create_and_register_session, update_session, notify_connected, call_connected, add_session,
}
use simple_server.Service.Start.{start_client, init_iocp_and_workers, start_workers}
use simple_server.Service.Registered.{IsRegistered}
use simple_server.Service.Stop.{IsStopped, stop-IsStopped}
use simple_server.Service.Reach.{
  Reach, constructed, next, starts_client, connects, Reach-IsRegistered, Reach-live,
}
use simple_server.Session.Reach.{Reach as SessionReach, closes}
use simple_server.Client.{
  Protobuf, has_case, bot_callbacks, bot_env, say_hello, bot_name, packet_of,
}
use simple_server.Client.Bot.{bot-IsTame, bot-IsOrderly}
use simple_server.Client.Refused.{no_case-close}

-- Every message parses and is written as its text.
abbrev pb : Protobuf
pb = record {
  s_enter_game = λ bytes. true;
  s_spawn = λ bytes. true;
  s_despawn = λ bytes. true;
  s_chat = λ bytes. true;
  s_player_list = λ bytes. true;
  c_enter_game = λ name. some name;
  c_chat = λ line. some line;
  to_string = λ n. (48 + n) ∷ [];
}

-- The world counts the calls; `connect` gives `reachable`, and all else succeeds.
abbrev os_with : Bool → Os ℕ
os_with reachable = record {
  open_socket = λ w. (true, w + 1);
  bind_socket = λ w. (true, w + 1);
  listen_socket = λ w. (true, w + 1);
  connect_socket = λ w. (reachable, w + 1);
  accept_socket = λ w. (true, w + 1);
  create_port = λ w. (true, w + 1);
  create_thread = λ w. (true, w + 1);
  register_socket = λ id w. (true, w + 1);
  recv = λ id w. (true, w + 1);
  send_bytes = λ id b w. (true, w + 1);
}

abbrev os : Os ℕ
os = os_with true

abbrev callbacks : Callbacks ℕ
callbacks = bot_callbacks pb os 7

-- Bot 7 has connected: session 0.
abbrev connected : Service ℕ
connected = (connect_to os callbacks (start_client os callbacks 1 (new_service 0)).1).1

abbrev reached : Reach os callbacks 0 connected
reached = next (next constructed (starts_client 1 refl)) (connects refl)

in_set : has_key 0 connected.net.sessions ≡ true
unfolding start_client connect_to is_client new_service init_iocp_and_workers start_workers
    create_and_register_session update_session start post_recv notify_connected call_connected
    add_session insert_key has_key say_hello enqueue_packet enqueue_send enqueue_locked post_front
    post_send_front_no_lock bot_name packet_of make_packet_from_proto make_packet make_send_buffer
    memcpy copy_from close_if header_bytes copy_payload new_session
in_set = refl

Reach-IsRegistered_example : IsRegistered connected
Reach-IsRegistered_example =
    Reach-IsRegistered os callbacks (bot-IsTame pb os 7) (bot-IsOrderly pb os 7) 0 reached

Reach-live_example : (connected.objects 0).deleted ≡ false
Reach-live_example =
    Reach-live os callbacks (bot-IsTame pb os 7) (bot-IsOrderly pb os 7) 0 0 reached in_set

is_running : connected.running ≡ true
unfolding start_client connect_to is_client new_service init_iocp_and_workers start_workers
    create_and_register_session update_session
is_running = refl

stop-IsStopped_example : IsStopped (stop os callbacks connected)
stop-IsStopped_example =
    stop-IsStopped os callbacks (bot-IsTame pb os 7) (bot-IsOrderly pb os 7) connected is_running
      (Reach-IsRegistered os callbacks (bot-IsTame pb os 7) (bot-IsOrderly pb os 7) 0 reached)

-- ── A tick of the server reaches the bot ──

abbrev out : Outside ℕ
out = record { serialize = λ m. some (8 ∷ 1 ∷ []); closes = λ calls s. false }

abbrev state : Msg ℕ
state = s_player_state (record {
  player_id = 4;
  last_processed_input_seq = 0;
  x = 0;
  y = 0;
  vx = 0;
  vy = 0;
  is_grounded = true;
  dir = dir_none;
  is_moving = false;
  is_jumping = false;
  is_on_ladder = false;
})

abbrev state_buffer : SendBuffer
state_buffer = record { buffer = 6 ∷ 0 ∷ 212 ∷ 7 ∷ 8 ∷ 1 ∷ []; write_size = 6 }

state_sent : buffer_of out op_s_player_state state ≡ some state_buffer
unfolding buffer_of packet_buffer make_packet_from_proto make_send_buffer memcpy
state_sent = refl

state_valid : is_valid_opcode op_s_player_state ≡ true
unfolding is_valid_opcode
state_valid = refl

state_no_case : has_case op_s_player_state ≡ false
unfolding has_case
state_no_case = refl

abbrev open_net : Net ℕ
open_net = record { sessions = 0 ∷ []; world = 0 }

-- Two bytes are there already, and two bytes follow.
abbrev half_read : Session
half_read = record new_session { recv_stream = 6 ∷ 0 ∷ [] }

still_open : half_read.closing ≡ false
unfolding new_session
still_open = refl

no_case-close_example :
    on_recv_complete (bot_env pb os 7 0) (212 ∷ 7 ∷ 8 ∷ 1 ∷ 5 ∷ 5 ∷ []) open_net half_read
    ≡ some (close (bot_env pb os 7 0) open_net (record half_read { recv_stream = 5 ∷ 5 ∷ [] }))
no_case-close_example =
    no_case-close pb os 7 0 out op_s_player_state state state_buffer (212 ∷ 7 ∷ 8 ∷ 1 ∷ 5 ∷ 5 ∷ [])
      (5 ∷ 5 ∷ []) open_net half_read state_valid state_no_case state_sent still_open refl

-- ── The end of the bot's session ──

abbrev env : Env (Net ℕ)
env = bot_env pb os 7 0

abbrev closed : Net ℕ × Session
closed = let t = start env open_net new_session in close env t.0 t.1

-- The receive and the greeting are cut off.
abbrev cut_off : List Answer
cut_off = Answer.transmitted false 0 ∷ Answer.received false [] ∷ []

is_closed : closed.1.closing ≡ true
unfolding close
is_closed = ground arith

one_receive : receives cut_off ≡ closed.1.pending_recv
unfolding receives start close release new_session post_recv notify_connected call_connected
    add_session insert_key has_key say_hello enqueue_packet enqueue_send enqueue_locked post_front
    post_send_front_no_lock bot_name packet_of make_packet_from_proto make_packet make_send_buffer
    memcpy copy_from close_if header_bytes copy_payload
one_receive = refl

one_send : transmits cut_off ≡ closed.1.pending_send
unfolding transmits start close release new_session post_recv notify_connected call_connected
    add_session insert_key has_key say_hello enqueue_packet enqueue_send enqueue_locked post_front
    post_send_front_no_lock bot_name packet_of make_packet_from_proto make_packet make_send_buffer
    memcpy copy_from close_if header_bytes copy_payload
one_send = refl

answers-deleted_example :
    (u : Net ℕ × Session) × (answers env cut_off closed.0 closed.1 ≡ some u) × (u.1.deleted ≡ true)
answers-deleted_example =
    answers-deleted env (bot-IsOrderly pb os 7 0) open_net cut_off closed
      (SessionReach.next SessionReach.started (closes refl)) is_closed one_receive one_send
