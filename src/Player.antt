-- ===== src/Player.antt =====
-- SimpleServer/Player.h and Player.cpp. Coordinates are of an abstract type `F`, the program's
-- `float`. `_session` is a pointer: `none` is null, a number names a session. Each method holds
-- `_inputMutex`, so it is one step; the atomic flag `_entered` is a Boolean.
pub mod Input
use simple_server.Prelude.{
  ℕ, Bool, true, false, not, Option, none, List, [], ◌∷◌, ◌++◌, leb, if◌then◌else◌, length,
  is_empty, tail_of,
}

-- A `MoveDir` is a byte: casts from `Protocol::MoveDir` are not checked.
abbrev pub MoveDir : Type 0
MoveDir = ℕ

abbrev pub dir_none : MoveDir
dir_none = 0

abbrev pub dir_left : MoveDir
dir_left = 1

abbrev pub dir_right : MoveDir
dir_right = 2

pub record Vec2 (F : Type 0) : Type 0 where
  pub x : F
  pub y : F

pub record InputCmd (F : Type 0) : Type 0 where
  pub input_seq : ℕ
  pub delta_time : F
  pub move_left : Bool
  pub move_right : Bool
  pub jump : Bool
  pub drop_through : Bool
  pub face_dir : MoveDir
  pub move_up : Bool
  pub move_down : Bool

-- `InputCmd{}`
abbrev pub zero_input : {F : Type 0} → F → InputCmd F
zero_input zero_f = record {
  input_seq = 0;
  delta_time = zero_f;
  move_left = false;
  move_right = false;
  jump = false;
  drop_through = false;
  face_dir = dir_none;
  move_up = false;
  move_down = false;
}

pub record PhysicsState (F : Type 0) : Type 0 where
  pub pos : Vec2 F
  pub vel : Vec2 F
  pub dir : MoveDir
  pub is_moving : Bool
  pub is_jumping : Bool
  pub is_grounded : Bool
  pub is_on_ladder : Bool
  pub is_crouching : Bool
  pub ladder_center_x : F
  pub ladder_min_y : F
  pub ladder_max_y : F
  pub drop_through_timer : F
  pub last_input_seq : ℕ

pub record Player (F : Type 0) : Type 0 where
  pub player_id : ℕ
  pub name : List ℕ
  pub session : Option ℕ
  pub entered : Bool
  pub phys_state : PhysicsState F
  pub input_buffer : List (InputCmd F)

abbrev pub max_input_buffer : ℕ
max_input_buffer = 32

-- `PhysicsState{}`
abbrev pub initial_state : {F : Type 0} → F → PhysicsState F
initial_state zero_f = record {
  pos = record { x = zero_f; y = zero_f };
  vel = record { x = zero_f; y = zero_f };
  dir = dir_right;
  is_moving = false;
  is_jumping = false;
  is_grounded = true;
  is_on_ladder = false;
  is_crouching = false;
  ladder_center_x = zero_f;
  ladder_min_y = zero_f;
  ladder_max_y = zero_f;
  drop_through_timer = zero_f;
  last_input_seq = 0;
}

module _ {F : Type 0} where
  unfoldable pub new_player : F → ℕ → List ℕ → Player F
  new_player zero_f id name = record {
    player_id = id;
    name = name;
    session = none;
    entered = false;
    phys_state = initial_state zero_f;
    input_buffer = [];
  }

  unfoldable pub set_name : List ℕ → Player F → Player F
  set_name name p = record p { name = name; entered = true }

  unfoldable pub set_session : Option ℕ → Player F → Player F
  set_session s p = record p { session = s }

  unfoldable pub enqueue_input : InputCmd F → Player F → Player F
  enqueue_input cmd p =
      let buffer =
        if leb max_input_buffer (length p.input_buffer)
        then tail_of p.input_buffer
        else p.input_buffer in
      record p { input_buffer = buffer ++ (cmd ∷ []) }

  unfoldable pub take_input : F → List (InputCmd F) → Player F → InputCmd F × Player F
  take_input zero_f [] p = (zero_input zero_f, p)
  take_input zero_f (cmd ∷ rest) p = (cmd, record p { input_buffer = rest })

  unfoldable pub dequeue_input : F → Player F → InputCmd F × Player F
  unfolding take_input
  dequeue_input zero_f p = take_input zero_f p.input_buffer p

  unfoldable pub has_input : Player F → Bool
  has_input p = not (is_empty p.input_buffer)
