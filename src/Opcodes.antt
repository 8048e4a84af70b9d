-- ===== src/Opcodes.antt =====
-- The packet numbers of ServerCore/Opcodes.h, and the test of ServerCore/Packet.cpp that admits them.
use simple_server.Prelude.{ℕ, ◌<◌, ◌≡◌, inl, inr, Bool, true, ◌||◌, arith, ◌==◌, Bool-cases}

abbrev pub op_c_enter_game : ℕ
op_c_enter_game = 1000

abbrev pub op_c_input_cmd : ℕ
op_c_input_cmd = 1001

abbrev pub op_c_attack : ℕ
op_c_attack = 1002

abbrev pub op_c_chat : ℕ
op_c_chat = 1003

abbrev pub op_c_use_item : ℕ
op_c_use_item = 1004

abbrev pub op_c_enter_zone : ℕ
op_c_enter_zone = 1005

abbrev pub op_c_resurrect : ℕ
op_c_resurrect = 1006

abbrev pub op_c_ping : ℕ
op_c_ping = 1007

abbrev pub op_c_ladder_state : ℕ
op_c_ladder_state = 1008

abbrev pub op_s_enter_game : ℕ
op_s_enter_game = 2000

abbrev pub op_s_spawn : ℕ
op_s_spawn = 2001

abbrev pub op_s_despawn : ℕ
op_s_despawn = 2002

abbrev pub op_s_player_list : ℕ
op_s_player_list = 2003

abbrev pub op_s_player_state : ℕ
op_s_player_state = 2004

abbrev pub op_s_broadcast_move : ℕ
op_s_broadcast_move = 2005

abbrev pub op_s_attack_result : ℕ
op_s_attack_result = 2006

abbrev pub op_s_take_damage : ℕ
op_s_take_damage = 2007

abbrev pub op_s_die : ℕ
op_s_die = 2008

abbrev pub op_s_resurrect : ℕ
op_s_resurrect = 2009

abbrev pub op_s_chat : ℕ
op_s_chat = 2010

abbrev pub op_s_inventory_update : ℕ
op_s_inventory_update = 2011

abbrev pub op_s_enter_zone : ℕ
op_s_enter_zone = 2012

abbrev pub op_s_pong : ℕ
op_s_pong = 2013

unfoldable pub is_client_opcode : ℕ → Bool
is_client_opcode op =
    op == op_c_enter_game
    || op == op_c_input_cmd
    || op == op_c_attack
    || op == op_c_chat
    || op == op_c_use_item
    || op == op_c_enter_zone
    || op == op_c_resurrect
    || op == op_c_ping
    || op == op_c_ladder_state

is_server_opcode : ℕ → Bool
is_server_opcode op =
    op == op_s_enter_game
    || op == op_s_spawn
    || op == op_s_despawn
    || op == op_s_player_list
    || op == op_s_player_state
    || op == op_s_broadcast_move
    || op == op_s_attack_result
    || op == op_s_take_damage
    || op == op_s_die
    || op == op_s_resurrect
    || op == op_s_chat
    || op == op_s_inventory_update
    || op == op_s_enter_zone
    || op == op_s_pong

unfoldable pub is_valid_opcode : ℕ → Bool
unfolding is_client_opcode is_server_opcode
is_valid_opcode op = is_client_opcode op || is_server_opcode op

client-lt : (op : ℕ) → is_client_opcode op ≡ true → op < 2014
unfolding is_client_opcode
client-lt op h = ground arith

server-lt : (op : ℕ) → is_server_opcode op ≡ true → op < 2014
unfolding is_server_opcode
server-lt op h = ground arith

-- An admitted opcode fits the 16-bit field with room to spare.
pub is_valid_opcode-lt : (op : ℕ) → is_valid_opcode op ≡ true → op < 2014
unfolding is_valid_opcode
is_valid_opcode-lt op h = elim (Bool-cases (is_client_opcode op)) [
  | inl c ↦ client-lt op c
  | inr n ↦ server-lt op (rw n at h)
]
