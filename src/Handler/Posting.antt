-- ===== src/Handler/Posting.antt =====
-- What the handlers of SimpleServer/ServerPacketHandler.cpp may touch: they run on the worker threads,
-- and leave to the game loop what is its own.
use simple_server.Prelude.{
  ℕ, ◌≤◌, ◌≡◌, refl, ◌⊎◌, inl, inr, Bool, true, false, not, Option, none, some, [], ◌∷◌, ◌++◌,
  arith, ◌==◌, if◌then◌else◌, length, if_both,
}
use simple_server.Opcodes.{is_client_opcode}
use simple_server.Packet.{Packet}
use simple_server.Session.{Session, Env}
use simple_server.Player.Input.{length-enqueue_input}
use simple_server.Player.{max_input_buffer, Player, InputCmd, enqueue_input}
use simple_server.Service.{Net}
use simple_server.World.{
  enter_game_task, chat_task, attack_task, ladder_task, World, Site, Outside, Task, update_player,
  post_task,
}
use simple_server.Handler.{
  AttackReq, LadderReq, aim_of, command_of, Parsers, parsed, if_entered, handle_enter_game,
  handle_input_cmd, handle_chat, handle_attack, handle_resurrect, handle_use_item,
  handle_enter_zone, handle_ladder_state, dispatch, handle_packet,
}

-- From `w` to `w'` at most one task is posted, and of a player only the input buffer may differ, within
-- its bound.
pub record IsPosting {F : Type 0} (w w' : World F) : Type 0 where
  pub same_players : w'.players ≡ w.players
  pub same_map : w'.map ≡ w.map
  pub same_tick : w'.server_tick ≡ w.server_tick
  pub same_sessions : w'.session_player ≡ w.session_player
  pub same_calls : w'.calls ≡ w.calls
  pub posted :
      (w'.task_queue ≡ w.task_queue) ⊎ ((t : Task F) × (w'.task_queue ≡ w.task_queue ++ (t ∷ [])))
  pub buffered :
      (k : ℕ) → w'.objects k ≡ record (w.objects k) { input_buffer = (w'.objects k).input_buffer }
  pub bounded :
      (k : ℕ)
      → length (w.objects k).input_buffer ≤ max_input_buffer
      → length (w'.objects k).input_buffer ≤ max_input_buffer

module _ {F : Type 0} where
  idle-IsPosting : (w : World F) → IsPosting w w
  idle-IsPosting w = record {
    same_players = refl;
    same_map = refl;
    same_tick = refl;
    same_sessions = refl;
    same_calls = refl;
    posted = inl refl;
    buffered = λ k. refl;
    bounded = λ k h. h;
  }

  post_task-IsPosting : (t : Task F) (w : World F) → IsPosting w (post_task t w)
  unfolding post_task
  post_task-IsPosting t w = record {
    same_players = refl;
    same_map = refl;
    same_tick = refl;
    same_sessions = refl;
    same_calls = refl;
    posted = inr (t, refl);
    buffered = λ k. refl;
    bounded = λ k h. h;
  }

  input-IsPosting :
      (id : ℕ) (cmd : InputCmd F) (w : World F)
      → IsPosting w (update_player id (enqueue_input cmd) w)
  unfolding update_player enqueue_input
  input-IsPosting id cmd w = record {
    same_players = refl;
    same_map = refl;
    same_tick = refl;
    same_sessions = refl;
    same_calls = refl;
    posted = inl refl;
    buffered = λ k.
        if_both (λ (p : Player F). p ≡ record (w.objects k) { input_buffer = p.input_buffer })
          (k == id) _ _ refl refl;
    bounded = λ k h.
        if_both (λ (p : Player F). length p.input_buffer ≤ max_input_buffer) (k == id) _ _
          (length-enqueue_input cmd (w.objects k) h) h;
  }

module _ {F : Type 0} (ps : Parsers F) (zero_f : F) (out : Outside F) where
  abbrev Posts : World F → Bool × World F → Type 0
  Posts w r = IsPosting w r.1

  -- The guards that the handlers share: the room, the parse, the player.
  guarded-Posts :
      {A : Type 0} (w : World F) (room : Bool) (m : Option A) (player : Option ℕ) (ok : Bool)
      (k : A → ℕ → Bool × World F)
      → ((a : A) (id : ℕ) → Posts w (k a id))
      → Posts w (
          if not room
          then (false, w)
          else parsed m (false, w) (λ a. parsed player (ok, w) (λ id. k a id)))
  guarded-Posts w false m player ok k h = idle-IsPosting w
  guarded-Posts w true none player ok k h = idle-IsPosting w
  guarded-Posts w true (some a) none ok k h = idle-IsPosting w
  guarded-Posts w true (some a) (some id) ok k h = h a id

  entered-Posts :
      (id : ℕ) (w : World F) (r : Bool × World F)
      → Posts w r
      → Posts w (if_entered ps zero_f out id w r)
  entered-Posts id w r h =
      if_both (Posts w) (not (w.objects id).entered) (true, w) r (idle-IsPosting w) h

  enter_game-Posts :
      (room : Bool) (sid : ℕ) (p : Packet) (w : World F)
      → Posts w (handle_enter_game ps zero_f out room sid p w)
  unfolding handle_enter_game
  enter_game-Posts room sid p w =
      guarded-Posts w room (ps.enter_game_name p.payload) (w.session_player sid) false
        (λ a id. (true, post_task (enter_game_task id a) w))
        (λ a id. post_task-IsPosting (enter_game_task id a) w)

  input_cmd-Posts :
      (room : Bool) (sid : ℕ) (p : Packet) (w : World F)
      → Posts w (handle_input_cmd ps zero_f out room sid p w)
  unfolding handle_input_cmd
  input_cmd-Posts room sid p w =
      guarded-Posts w room (ps.input_cmd p.payload) (w.session_player sid) false
        (λ a id.
          if_entered ps zero_f out id w (true, update_player id (enqueue_input (command_of a)) w))
        (λ a id.
          entered-Posts id w (true, update_player id (enqueue_input (command_of a)) w)
            (input-IsPosting id (command_of a) w))

  chat-Posts :
      (room : Bool) (sid : ℕ) (p : Packet) (w : World F)
      → Posts w (handle_chat ps zero_f out room sid p w)
  unfolding handle_chat
  chat-Posts room sid p w =
      guarded-Posts w room (ps.chat_req p.payload) (w.session_player sid) false
        (λ a id. (true, post_task (chat_task id a.message a.type) w))
        (λ a id. post_task-IsPosting (chat_task id a.message a.type) w)

  use_item-Posts :
      (room : Bool) (sid : ℕ) (p : Packet) (w : World F)
      → Posts w (handle_use_item ps zero_f out room sid p w)
  unfolding handle_use_item
  use_item-Posts room sid p w =
      guarded-Posts w room (ps.item_id p.payload) (w.session_player sid) true
        (λ a id. if_entered ps zero_f out id w (true, w))
        (λ a id. entered-Posts id w (true, w) (idle-IsPosting w))

  enter_zone-Posts :
      (room : Bool) (sid : ℕ) (p : Packet) (w : World F)
      → Posts w (handle_enter_zone ps zero_f out room sid p w)
  unfolding handle_enter_zone
  enter_zone-Posts room sid p w =
      guarded-Posts w room (ps.zone_id p.payload) (w.session_player sid) true
        (λ a id. if_entered ps zero_f out id w (true, w))
        (λ a id. entered-Posts id w (true, w) (idle-IsPosting w))

  -- The task that an attack posts, and that of a ladder message.
  abbrev attack_of : AttackReq F → ℕ → Task F
  attack_of r id =
      let (x, y) = aim_of zero_f r.aim_dir in attack_task id r.skill_id r.attack_type x y

  abbrev ladder_of : LadderReq F → ℕ → Task F
  ladder_of r id = ladder_task id r.on_ladder r.pos_x r.pos_y r.vel_x r.vel_y

  attack-Posts :
      (room : Bool) (sid : ℕ) (p : Packet) (w : World F)
      → Posts w (handle_attack ps zero_f out room sid p w)
  unfolding handle_attack
  attack-Posts room sid p w =
      guarded-Posts w room (ps.attack_req p.payload) (w.session_player sid) true
        (λ r id. if_entered ps zero_f out id w (true, post_task (attack_of r id) w))
        (λ r id.
          entered-Posts id w (true, post_task (attack_of r id) w)
            (post_task-IsPosting (attack_of r id) w))

  ladder_state-Posts :
      (room : Bool) (sid : ℕ) (p : Packet) (w : World F)
      → Posts w (handle_ladder_state ps zero_f out room sid p w)
  unfolding handle_ladder_state
  ladder_state-Posts room sid p w =
      guarded-Posts w room (ps.ladder_req p.payload) (w.session_player sid) true
        (λ r id. if_entered ps zero_f out id w (true, post_task (ladder_of r id) w))
        (λ r id.
          entered-Posts id w (true, post_task (ladder_of r id) w)
            (post_task-IsPosting (ladder_of r id) w))

  resurrect-Posts :
      (room : Bool) (sid : ℕ) (p : Packet) (w : World F)
      → Posts w (handle_resurrect ps zero_f out room sid p w)
  unfolding handle_resurrect
  resurrect-Posts room sid p w =
      guarded-Posts w room (some tt) (w.session_player sid) true
        (λ a id. if_entered ps zero_f out id w (true, w))
        (λ a id. entered-Posts id w (true, w) (idle-IsPosting w))

  -- A packet other than a ping posts at most one task, and changes nothing else that the game loop
  -- owns: not who is in the room, nor the map or the tick, and of a player only the input buffer, which
  -- stays within its 32 commands if it was.
  pub dispatch-IsPosting :
      (room : Bool) (sid : ℕ) (p : Packet) (w : World F)
      → IsPosting w (dispatch ps zero_f out room sid p w).1
  unfolding dispatch
  dispatch-IsPosting room sid p w = ground (
    arith,
    enter_game-Posts room sid p w,
    input_cmd-Posts room sid p w,
    chat-Posts room sid p w,
    attack-Posts room sid p w,
    resurrect-Posts room sid p w,
    use_item-Posts room sid p w,
    enter_zone-Posts room sid p w,
    ladder_state-Posts room sid p w,
    idle-IsPosting w,
  )

  -- A packet whose opcode is not one of the client's is refused, and changes nothing.
  pub handle_packet-not_client :
      {E : Type 0} (env : Env (Net (Site F E))) (room : Bool) (now sid : ℕ) (p : Packet)
      (n : Net (Site F E)) (s : Session)
      → is_client_opcode p.header.opcode ≡ false
      → handle_packet ps zero_f out env room now sid p n s ≡ (false, n, s)
  unfolding handle_packet dispatch is_client_opcode
  handle_packet-not_client {E} env room now sid p n s h = ground arith
