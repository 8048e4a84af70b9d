-- ===== src/Map.antt =====
-- The tile map: SimpleServer/Map.h. A cell's coordinates are integers in the range of `int`, and a
-- `std::unordered_set<int64_t>` is a list of keys without repetitions. `Load` is in `Map.Load`.
pub mod Cells
pub mod Contents
pub mod Load
pub mod Tiles
use simple_server.Prelude.{
  ℕ, ◌-◌, ◌%◌, ◌^◌, Bool, false, ◌||◌, List, [], ◌∷◌, if◌then◌else◌, length,
}
use simple_server.Prelude.Int.{ℤ, pos, negsuc, ◌+ℤ◌, ◌*ℤ◌, eqb_ℤ}
use simple_server.Float.{FloatOps}

-- `static_cast<uint32_t>(cx)`
unfoldable pub u32_of_int : ℤ → ℕ
u32_of_int (pos n) = n % 2 ^ 32
u32_of_int (negsuc n) = 2 ^ 32 - 1 - n % 2 ^ 32

-- The low 32 bits of the shifted word are 0, so `|` is a sum.
unfoldable pub pack_cell : ℤ → ℤ → ℤ
unfolding u32_of_int ◌*ℤ◌ ◌+ℤ◌
pack_cell cx cy = cy *ℤ pos (2 ^ 32) +ℤ pos (u32_of_int cx)

-- `set.count(key) != 0`
unfoldable pub contains : List ℤ → ℤ → Bool
contains [] key = false
contains (k ∷ ks) key = eqb_ℤ k key || contains ks key

-- `set.insert(key)`
unfoldable pub insert : ℤ → List ℤ → List ℤ
unfolding contains
insert key ks = if contains ks key then ks else key ∷ ks

pub record Map (F : Type 0) : Type 0 where
  pub solid : List ℤ
  pub ladder : List ℤ
  pub floating_ground : List ℤ
  pub cell_size_x : F
  pub cell_size_y : F
  pub loaded : Bool

module _ {F : Type 0} where
  unfoldable pub is_solid : Map F → ℤ → ℤ → Bool
  is_solid m cx cy = contains m.solid (pack_cell cx cy)

  unfoldable pub is_ladder : Map F → ℤ → ℤ → Bool
  is_ladder m cx cy = contains m.ladder (pack_cell cx cy)

  unfoldable pub is_floating_ground : Map F → ℤ → ℤ → Bool
  is_floating_ground m cx cy = contains m.floating_ground (pack_cell cx cy)

  unfoldable pub solid_count : Map F → ℕ
  solid_count m = length m.solid

  unfoldable pub ladder_count : Map F → ℕ
  ladder_count m = length m.ladder

  unfoldable pub floating_ground_count : Map F → ℕ
  floating_ground_count m = length m.floating_ground

module _ (fl : FloatOps) where
  open fl use {F, lit, mul, div, of_int, floor_int}

  -- The members' initialisers.
  unfoldable pub empty_map : Map F
  empty_map = record {
    solid = [];
    ladder = [];
    floating_ground = [];
    cell_size_x = lit 1 0;
    cell_size_y = lit 1 0;
    loaded = false;
  }

  unfoldable pub world_to_cell : F → F → ℤ
  world_to_cell world cell_size = floor_int (div world cell_size)

  unfoldable pub cell_top_y : Map F → ℤ → F
  cell_top_y m cy = mul (of_int (cy +ℤ pos 1)) m.cell_size_y

  unfoldable pub cell_bottom_y : Map F → ℤ → F
  cell_bottom_y m cy = mul (of_int cy) m.cell_size_y

  unfoldable pub cell_right_x : Map F → ℤ → F
  cell_right_x m cx = mul (of_int (cx +ℤ pos 1)) m.cell_size_x

  unfoldable pub cell_left_x : Map F → ℤ → F
  cell_left_x m cx = mul (of_int cx) m.cell_size_x
