-- ===== src/Map/Cells.antt =====
-- `PackCell` of SimpleServer/Map.h gives every cell a key of its own, so the three sets answer for
-- exactly the cells that were inserted.
use simple_server.Prelude.{◌+◌, ◌*◌, ◌^◌, ◌<◌, ◌≡◌, ap, ◌||◌, List, arith}
use simple_server.Prelude.Int.{ℤ, pos, negsuc, eqb_ℤ, pos_part, neg_part, eq_of_parts, eqb_ℤ→eq}
use simple_server.Map.{u32_of_int, pack_cell, contains, insert}

-- The range of `int`: -2147483648 to 2147483647.
abbrev pub IsInt : ℤ → Type 0
IsInt (pos n) = n < 2147483648
IsInt (negsuc n) = n < 2147483648

pub u32_of_int-lt : (x : ℤ) → u32_of_int x < 2 ^ 32
unfolding u32_of_int
u32_of_int-lt (pos n) = omega arith
u32_of_int-lt (negsuc n) = omega arith

u32_of_int-injective : (x y : ℤ) → IsInt x → IsInt y → u32_of_int x ≡ u32_of_int y → x ≡ y
unfolding u32_of_int
u32_of_int-injective (pos n) (pos m) h k e = ap pos (omega arith)
u32_of_int-injective (pos n) (negsuc m) h k e = absurd (omega arith)
u32_of_int-injective (negsuc n) (pos m) h k e = absurd (omega arith)
u32_of_int-injective (negsuc n) (negsuc m) h k e = ap negsuc (omega arith)

-- The key is the number `y * 2^32 + u32 x`.
pub pack_cell_parts :
    (x y : ℤ)
    → pos_part (pack_cell x y) + neg_part y * 4294967296
      ≡ neg_part (pack_cell x y) + pos_part y * 4294967296 + u32_of_int x
unfolding pack_cell
pack_cell_parts x (pos n) = ground arith
pack_cell_parts x (negsuc n) = ground arith

-- Two cells with the same key are the same, if their columns are in the range of `int`.
pub pack_cell-injective :
    (x y x' y' : ℤ) → IsInt x → IsInt x' → pack_cell x y ≡ pack_cell x' y' → (x ≡ x') × (y ≡ y')
pack_cell-injective x y x' y' h k e =
    let p = ap pos_part e in
    let n = ap neg_part e in
    let lx = u32_of_int-lt x in
    let lx' = u32_of_int-lt x' in
    let a = pack_cell_parts x y in
    let a' = pack_cell_parts x' y' in
    (u32_of_int-injective x x' h k (omega arith), eq_of_parts y y' (omega arith))

-- What the set answers after an insertion.
pub contains-insert :
    (key k : ℤ) (ks : List ℤ) → contains (insert key ks) k ≡ (eqb_ℤ key k || contains ks k)
unfolding insert contains
contains-insert key k ks = ground (arith, eqb_ℤ→eq key k)
