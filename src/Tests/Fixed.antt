-- ===== src/Tests/Fixed.antt =====
-- Numbers in hundredths for the `float` of SimpleServer, and a small map.
use simple_server.Prelude.{ℕ, ◌+◌, ◌*◌, ◌/◌, ◌^◌, true, none, some, [], ◌∷◌, ◌==◌}
use simple_server.Prelude.Int.{
  ℤ, pos, negsuc, ◌+ℤ◌, ◌-ℤ◌, ◌*ℤ◌, pos_part, neg_part, ltb_ℤ, leb_ℤ, eqb_ℤ,
}
use simple_server.Float.{FloatOps}
use simple_server.Map.{Map, pack_cell}
use simple_server.Player.{zero_input}
use simple_server.World.{Outside}
use simple_server.Handler.{Parsers}

-- `x / d`, rounded down.
abbrev pub floor_div : ℤ → ℕ → ℤ
floor_div (pos n) d = pos (n / d)
floor_div (negsuc n) d = negsuc (n / d)

abbrev pub neg_ℤ : ℤ → ℤ
neg_ℤ x = pos 0 -ℤ x

-- Numbers in hundredths; only positive divisors are meant.
abbrev pub fixed : FloatOps
fixed = record {
  F = ℤ;
  lit = λ n k. pos (n * 100 / 10 ^ k);
  add = λ a b. a +ℤ b;
  sub = λ a b. a -ℤ b;
  mul = λ a b. floor_div (a *ℤ b) 100;
  div = λ a b. floor_div (a *ℤ pos 100) (pos_part b);
  neg = λ a. neg_ℤ a;
  abs = λ a. pos (pos_part a + neg_part a);
  lt = λ a b. ltb_ℤ a b;
  le = λ a b. leb_ℤ a b;
  eq = λ a b. eqb_ℤ a b;
  of_int = λ i. i *ℤ pos 100;
  floor_int = λ a. floor_div a 100;
  ceil_int = λ a. neg_ℤ (floor_div (neg_ℤ a) 100);
}

-- A map with one solid cell under the origin, and a ladder of two cells above it.
abbrev pub room_map : Map ℤ
room_map = record {
  solid = pack_cell (pos 0) (negsuc 0) ∷ [];
  ladder = pack_cell (pos 0) (pos 0) ∷ pack_cell (pos 0) (pos 1) ∷ [];
  floating_ground = [];
  cell_size_x = pos 100;
  cell_size_y = pos 100;
  loaded = true;
}

abbrev pub out : Outside ℤ
out = record { serialize = λ m. some (1 ∷ []); closes = λ calls s. s == 2 }

abbrev pub parsers : Parsers ℤ
parsers = record {
  enter_game_name = λ bytes. some bytes;
  input_cmd = λ bytes. some (zero_input (pos 0));
  chat_req = λ bytes. none;
  attack_req = λ bytes. none;
  item_id = λ bytes. none;
  zone_id = λ bytes. none;
  ladder_req = λ bytes. none;
  client_time = λ bytes. none;
}
