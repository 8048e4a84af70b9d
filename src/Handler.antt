-- ===== src/Handler.antt =====
-- The packet handler of the server: SimpleServer/ServerPacketHandler.cpp. It runs on the worker
-- threads. Its session has a number; the player of a session is in `World.session_player`.
-- protobuf's parsers are an interface, with the fields that the handler reads; an enumeration is
-- the 32-bit word of its number.
pub mod Delivered
pub mod Posting
pub mod Server
use simple_server.Prelude.{
  ℕ, ◌%◌, ◌^◌, Bool, true, false, not, Option, none, some, List, ◌==◌, if◌then◌else◌,
}
use simple_server.Opcodes.{
  op_c_enter_game, op_c_input_cmd, op_c_chat, op_c_attack, op_c_resurrect, op_c_use_item,
  op_c_enter_zone, op_c_ladder_state, op_c_ping, op_s_pong,
}
use simple_server.Packet.{Packet}
use simple_server.Session.{Session, Env, enqueue_send}
use simple_server.Player.{Player, InputCmd, enqueue_input}
use simple_server.Service.{Net}
use simple_server.World.{
  World, Site, Outside, enter_game_task, chat_task, attack_task, ladder_task, s_pong, update_player,
  post_task, buffer_of,
}

pub record ChatReq : Type 0 where
  pub message : List ℕ
  pub type : ℕ

pub record AttackReq (F : Type 0) : Type 0 where
  pub skill_id : ℕ
  pub attack_type : ℕ
  -- `none` if `has_aim_dir()` is false.
  pub aim_dir : Option (F × F)

pub record LadderReq (F : Type 0) : Type 0 where
  pub on_ladder : Bool
  pub pos_x : F
  pub pos_y : F
  pub vel_x : F
  pub vel_y : F

-- `ParseFromArray` for each message; `none` if it fails.
pub record Parsers (F : Type 0) : Type 0 where
  pub enter_game_name : List ℕ → Option (List ℕ)
  pub input_cmd : List ℕ → Option (InputCmd F)
  pub chat_req : List ℕ → Option ChatReq
  pub attack_req : List ℕ → Option (AttackReq F)
  pub item_id : List ℕ → Option ℕ
  pub zone_id : List ℕ → Option ℕ
  pub ladder_req : List ℕ → Option (LadderReq F)
  pub client_time : List ℕ → Option ℕ

-- The fields of the message; `face_dir` is cast to a byte.
unfoldable pub command_of : {F : Type 0} → InputCmd F → InputCmd F
command_of req = record req { face_dir = req.face_dir % 2 ^ 8 }

unfoldable pub aim_of : {F : Type 0} → F → Option (F × F) → F × F
aim_of zero_f none = (zero_f, zero_f)
aim_of zero_f (some aim) = aim

-- `if (!req.ParseFromArray(…)) return false;`
abbrev pub parsed : {A R : Type 0} → Option A → R → (A → R) → R
parsed none failed k = failed
parsed (some req) failed k = k req

-- `room` says that `_room` is not null, and `now` is the clock in milliseconds.
module _ {F : Type 0} (ps : Parsers F) (zero_f : F) (out : Outside F) where
  -- A handler that only changes the world: its result, and the world.
  abbrev pub Verdict : Type 0
  Verdict = Bool × World F

  -- `if (!player->IsEntered()) return true;`
  abbrev pub if_entered : ℕ → World F → Verdict → Verdict
  if_entered id w go = if not (w.objects id).entered then (true, w) else go

  unfoldable pub handle_enter_game : Bool → ℕ → Packet → World F → Verdict
  handle_enter_game room sid pkt w =
      if not room
      then (false, w)
      else parsed (ps.enter_game_name pkt.payload) (false, w)
          (λ name.
            parsed (w.session_player sid) (false, w)
              (λ id. (true, post_task (enter_game_task id name) w)))

  unfoldable pub handle_input_cmd : Bool → ℕ → Packet → World F → Verdict
  handle_input_cmd room sid pkt w =
      if not room
      then (false, w)
      else parsed (ps.input_cmd pkt.payload) (false, w)
          (λ req.
            parsed (w.session_player sid) (false, w)
              (λ id. if_entered id w (true, update_player id (enqueue_input (command_of req)) w)))

  unfoldable pub handle_chat : Bool → ℕ → Packet → World F → Verdict
  handle_chat room sid pkt w =
      if not room
      then (false, w)
      else parsed (ps.chat_req pkt.payload) (false, w)
          (λ req.
            parsed (w.session_player sid) (false, w)
              (λ id. (true, post_task (chat_task id req.message req.type) w)))

  unfoldable pub handle_attack : Bool → ℕ → Packet → World F → Verdict
  handle_attack room sid pkt w =
      if not room
      then (false, w)
      else parsed (ps.attack_req pkt.payload) (false, w)
          (λ req.
            parsed (w.session_player sid) (true, w)
              (λ id.
                (let (x, y) = aim_of zero_f req.aim_dir in
                  if_entered id w
                    (true, post_task (attack_task id req.skill_id req.attack_type x y) w))))

  unfoldable pub handle_resurrect : Bool → ℕ → Packet → World F → Verdict
  handle_resurrect room sid pkt w =
      if not room
      then (false, w)
      else parsed (w.session_player sid) (true, w) (λ id. if_entered id w (true, w))

  unfoldable pub handle_use_item : Bool → ℕ → Packet → World F → Verdict
  handle_use_item room sid pkt w =
      if not room
      then (false, w)
      else parsed (ps.item_id pkt.payload) (false, w)
          (λ req. parsed (w.session_player sid) (true, w) (λ id. if_entered id w (true, w)))

  unfoldable pub handle_enter_zone : Bool → ℕ → Packet → World F → Verdict
  handle_enter_zone room sid pkt w =
      if not room
      then (false, w)
      else parsed (ps.zone_id pkt.payload) (false, w)
          (λ req. parsed (w.session_player sid) (true, w) (λ id. if_entered id w (true, w)))

  unfoldable pub handle_ladder_state : Bool → ℕ → Packet → World F → Verdict
  handle_ladder_state room sid pkt w =
      if not room
      then (false, w)
      else parsed (ps.ladder_req pkt.payload) (false, w)
          (λ r.
            parsed (w.session_player sid) (true, w)
              (λ id.
                if_entered id w
                  (true, post_task (ladder_task id r.on_ladder r.pos_x r.pos_y r.vel_x r.vel_y) w)))

  -- The cases that leave the session alone.
  unfoldable pub dispatch : Bool → ℕ → Packet → World F → Verdict
  dispatch room sid pkt w =
      let op = pkt.header.opcode in
      if op == op_c_enter_game
      then handle_enter_game room sid pkt w
      else if op == op_c_input_cmd
      then handle_input_cmd room sid pkt w
      else if op == op_c_chat
      then handle_chat room sid pkt w
      else if op == op_c_attack
      then handle_attack room sid pkt w
      else if op == op_c_resurrect
      then handle_resurrect room sid pkt w
      else if op == op_c_use_item
      then handle_use_item room sid pkt w
      else if op == op_c_enter_zone
      then handle_enter_zone room sid pkt w
      else if op == op_c_ladder_state
      then handle_ladder_state room sid pkt w
      else (false, w)

  module _ {E : Type 0} (env : Env (Net (Site F E))) where
    -- What follows the parse of a C_Ping.
    unfoldable pub answer_ping :
        ℕ → Option ℕ → Net (Site F E) → Session → Bool × Net (Site F E) × Session
    answer_ping now none n s = (false, n, s)
    answer_ping now (some t) n s =
        let (n1, s1) = enqueue_send env (buffer_of out op_s_pong (s_pong t now)) n s in
        (true, n1, s1)

    unfoldable pub handle_ping :
        ℕ → Packet → Net (Site F E) → Session → Bool × Net (Site F E) × Session
    handle_ping now pkt n s = answer_ping now (ps.client_time pkt.payload) n s

    unfoldable pub handle_packet :
        Bool → ℕ → ℕ → Packet → Net (Site F E) → Session → Bool × Net (Site F E) × Session
    handle_packet room now sid pkt n s =
        if pkt.header.opcode == op_c_ping
        then handle_ping now pkt n s
        else (let (ok, w1) = dispatch room sid pkt n.world.game in
            (ok, record n { world = record n.world { game = w1 } }, s))
