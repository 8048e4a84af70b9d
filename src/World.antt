-- ===== src/World.antt =====
-- The state that the game room, the packet handler and the callbacks of SimpleServer/ServerMain.cpp
-- share, and the messages of Proto/game.proto that they send. A `Player` object is named by its id,
-- which is unique; so a `shared_ptr<Player>` is an id, and `objects` is the heap of players. A
-- session pointer is a number. `_players` is the list of its keys: `_players[id]` is always the
-- object of that id. A task is a closure of `PostTask`, as data.
use simple_server.Prelude.{
  ℕ, ◌+◌, Bool, Option, none, some, List, [], ◌∷◌, ◌++◌, ◌==◌, if◌then◌else◌,
}
use simple_server.SendBuffer.{SendBuffer, make_send_buffer}
use simple_server.Packet.{make_packet_from_proto}
use simple_server.Player.{Player, MoveDir, set_session}
use simple_server.Map.{Map}

pub record PlayerInfo (F : Type 0) : Type 0 where
  pub player_id : ℕ
  pub name : List ℕ
  pub x : F
  pub y : F
  pub dir : MoveDir
  pub is_moving : Bool
  pub is_jumping : Bool

pub record StateMsg (F : Type 0) : Type 0 where
  pub player_id : ℕ
  pub last_processed_input_seq : ℕ
  pub x : F
  pub y : F
  pub vx : F
  pub vy : F
  pub is_grounded : Bool
  pub dir : MoveDir
  pub is_moving : Bool
  pub is_jumping : Bool
  pub is_on_ladder : Bool

pub record MoveMsg (F : Type 0) : Type 0 where
  pub player_id : ℕ
  pub x : F
  pub y : F
  pub vx : F
  pub vy : F
  pub dir : MoveDir
  pub is_grounded : Bool
  pub is_moving : Bool
  pub is_jumping : Bool
  pub is_crouching : Bool
  pub is_on_ladder : Bool
  pub server_tick : ℕ

pub record AttackMsg (F : Type 0) : Type 0 where
  pub attacker_id : ℕ
  pub skill_id : ℕ
  pub attack_type : ℕ
  pub origin_x : F
  pub origin_y : F
  pub aim_x : F
  pub aim_y : F

-- The messages of the server, with the fields that it sets.
pub data Msg (F : Type 0) : Type 0 where
  s_enter_game : Bool → PlayerInfo F → Msg F
  s_spawn : List (PlayerInfo F) → Msg F
  s_despawn : List ℕ → Msg F
  s_player_list : List (PlayerInfo F) → Msg F
  s_player_state : StateMsg F → Msg F
  s_broadcast_move : MoveMsg F → Msg F
  s_attack_result : AttackMsg F → Msg F
  s_chat : ℕ → List ℕ → ℕ → List ℕ → Msg F
  s_pong : ℕ → ℕ → Msg F

pub data Task (F : Type 0) : Type 0 where
  enter_task : ℕ → Task F
  leave_task : ℕ → Task F
  enter_game_task : ℕ → List ℕ → Task F
  chat_task : ℕ → List ℕ → ℕ → Task F
  attack_task : ℕ → ℕ → ℕ → F → F → Task F
  ladder_task : ℕ → Bool → F → F → F → F → Task F

-- `calls` are the calls of `Session::EnqueueSend` so far, oldest first.
pub record World (F : Type 0) : Type 0 where
  pub objects : ℕ → Player F
  pub players : List ℕ
  pub map : Map F
  pub server_tick : ℕ
  pub task_queue : List (Task F)
  pub session_player : ℕ → Option ℕ
  pub next_player_id : ℕ
  pub calls : List (ℕ × Option SendBuffer)

-- The game, and the state of what is outside the program.
pub record Site (F E : Type 0) : Type 0 where
  pub game : World F
  pub system : E

-- What the room relies on outside it: protobuf's `SerializeToString`, and whether a call of
-- `EnqueueSend` closes its session (a full queue, or a `WSASend` that fails), by the calls before it.
pub record Outside (F : Type 0) : Type 0 where
  pub serialize : Msg F → Option (List ℕ)
  pub closes : List (ℕ × Option SendBuffer) → ℕ → Bool

module _ {F : Type 0} where
  unfoldable pub update_player : ℕ → (Player F → Player F) → World F → World F
  update_player id f w = record w {
    objects = λ k. if k == id then f (w.objects k) else w.objects k;
  }

  -- `GameRoom::PostTask`
  unfoldable pub post_task : Task F → World F → World F
  post_task t w = record w { task_queue = w.task_queue ++ (t ∷ []) }

  unfoldable pub disconnect : Option ℕ → World F → World F
  unfolding update_player post_task
  disconnect none w = w
  disconnect (some id) w = post_task (leave_task id) (update_player id (set_session none) w)

  -- The callback `SetOnDisconnected` of `main`, for session `s`.
  unfoldable pub on_disconnected : ℕ → World F → World F
  unfolding disconnect
  on_disconnected s w = disconnect (w.session_player s) w

  -- The callback `SetOnConnected` of `main`: a new player for session `s`.
  unfoldable pub on_connected : (ℕ → Player F) → ℕ → World F → World F
  unfolding post_task
  on_connected new_player s w =
      let id = w.next_player_id in
      post_task (enter_task id) (record w {
        next_player_id = id + 1;
        objects = λ k. if k == id then set_session (some s) (new_player id) else w.objects k;
        session_player = λ k. if k == s then some id else w.session_player k;
      })

  module _ (out : Outside F) where
    unfoldable pub packet_buffer : Option (List ℕ) → Option SendBuffer
    packet_buffer none = none
    packet_buffer (some packet) = make_send_buffer packet

    -- `MakeSendBuffer(MakePacketFromProto(opcode, msg))`
    unfoldable pub buffer_of : ℕ → Msg F → Option SendBuffer
    unfolding packet_buffer
    buffer_of opcode msg = packet_buffer (make_packet_from_proto opcode (out.serialize msg))

    -- `session->EnqueueSend(buf)`, as the room sees it.
    unfoldable pub enqueue : ℕ → Option SendBuffer → World F → World F
    enqueue s buf w =
        let w1 = record w { calls = w.calls ++ ((s, buf) ∷ []) } in
        if out.closes w.calls s then on_disconnected s w1 else w1
