-- ===== src/Map/Tiles.antt =====
-- What the loop over the tiles of a layer adds to a set: `Map::Load` of SimpleServer/Map.cpp.
use simple_server.Prelude.{
  ◌≡◌, refl, inl, inr, Bool, true, false, ◌&&◌, ◌||◌, Option, none, some, List, [], ◌∷◌, arith,
  along_some, if-cases, bind-some,
}
use Prim.Native.String.{String}
use text.Mathlib.Text.{◌==◌ as str_eq}
use text.Mathlib.TextEquality.{eq_iff}
use simple_server.Prelude.Int.{ℤ, pos, eqb_ℤ}
use simple_server.Float.{FloatOps}
use simple_server.Map.{Map, pack_cell, contains, insert}
use simple_server.Map.Cells.{contains-insert}
use simple_server.Map.Load.{JsonOps, load_tiles, fill_target}

module _ (fl : FloatOps) (js : JsonOps (FloatOps.F fl)) where
  open fl use {F, lit, eq}
  open js use {Json, has, at, is_array, elements, value_string, value_float, value_int}

  -- The key of the cell that a tile names.
  abbrev pub key_is : Option ℤ → Option ℤ → ℤ → Bool
  key_is (some cx) (some cy) k = eqb_ℤ (pack_cell cx cy) k
  key_is (some cx) none k = false
  key_is none cy k = false

  -- Is the key that of one of the tiles?
  abbrev pub lists : List Json → ℤ → Bool
  lists [] k = false
  lists (t ∷ ts) k = key_is (value_int t "x" (pos 0)) (value_int t "y" (pos 0)) k || lists ts k

  load_tiles-contains :
      (ts : List Json) (target s : List ℤ) (k : ℤ)
      → load_tiles fl js ts target ≡ some s
      → contains s k ≡ (lists ts k || contains target k)
  unfolding load_tiles
  load_tiles-contains [] target s k e =
      along_some (λ (r : List ℤ). contains r k ≡ contains target k) e refl
  load_tiles-contains (t ∷ ts) target s k e =
      let (cx, a, e1) = bind-some (value_int t "x" (pos 0)) _ s e in
      let (cy, b, e2) = bind-some (value_int t "y" (pos 0)) _ s e1 in
      rw (a, b)
        (ground (
          arith,
          load_tiles-contains ts (insert (pack_cell cx cy) target) s k e2,
          contains-insert (pack_cell cx cy) k target,
        ))

  -- A text is equal to at most one of two different ones.
  other_name :
      (name a b : String) → str_eq a b ≡ false → str_eq name a ≡ true → str_eq name b ≡ false
  other_name name a b d e = rw ((eq_iff name a).0 e) d

  -- From `m` to `m'` these keys have come to the three sets.
  pub record Adds (m m' : Map F) (ground_keys ladder_keys floating_keys : ℤ → Bool) : Type 0 where
    pub solid : (k : ℤ) → contains m'.solid k ≡ (ground_keys k || contains m.solid k)
    pub ladder : (k : ℤ) → contains m'.ladder k ≡ (ladder_keys k || contains m.ladder k)
    pub floating :
        (k : ℤ) → contains m'.floating_ground k ≡ (floating_keys k || contains m.floating_ground k)

  -- What a layer of this name with these tiles adds.
  abbrev pub Fills : String → List Json → Map F → Map F → Type 0
  Fills name tiles m m' =
      Adds m m' (λ k. str_eq name "Ground" && lists tiles k)
        (λ k. str_eq name "Ladder" && lists tiles k)
        (λ k. str_eq name "Floating Ground" && lists tiles k)

  ground-Fills :
      (name : String) (tiles : List Json) (m : Map F) (s : List ℤ)
      → str_eq name "Ground" ≡ true
      → load_tiles fl js tiles m.solid ≡ some s
      → Fills name tiles m (record m { solid = s })
  ground-Fills name tiles m s a b = record {
    solid = λ k. rw a (load_tiles-contains tiles m.solid s k b);
    ladder = λ k. rw (other_name name "Ground" "Ladder" refl a) refl;
    floating = λ k. rw (other_name name "Ground" "Floating Ground" refl a) refl;
  }

  ladder-Fills :
      (name : String) (tiles : List Json) (m : Map F) (s : List ℤ)
      → str_eq name "Ladder" ≡ true
      → load_tiles fl js tiles m.ladder ≡ some s
      → Fills name tiles m (record m { ladder = s })
  ladder-Fills name tiles m s a b = record {
    solid = λ k. rw (other_name name "Ladder" "Ground" refl a) refl;
    ladder = λ k. rw a (load_tiles-contains tiles m.ladder s k b);
    floating = λ k. rw (other_name name "Ladder" "Floating Ground" refl a) refl;
  }

  floating-Fills :
      (name : String) (tiles : List Json) (m : Map F) (s : List ℤ)
      → str_eq name "Floating Ground" ≡ true
      → load_tiles fl js tiles m.floating_ground ≡ some s
      → Fills name tiles m (record m { floating_ground = s })
  floating-Fills name tiles m s a b = record {
    solid = λ k. rw (other_name name "Floating Ground" "Ground" refl a) refl;
    ladder = λ k. rw (other_name name "Floating Ground" "Ladder" refl a) refl;
    floating = λ k. rw a (load_tiles-contains tiles m.floating_ground s k b);
  }

  pub fill_target-Fills :
      (name : String) (tiles : List Json) (m m' : Map F)
      → (str_eq name "Ground" || str_eq name "Ladder" || str_eq name "Floating Ground") ≡ true
      → fill_target fl js name tiles m ≡ some m'
      → Fills name tiles m m'
  unfolding fill_target
  fill_target-Fills name tiles m m' h e = elim (if-cases (str_eq name "Ground") _ _ _ e) [
    | inl (a, j) ↦
        let (s, b, c) = bind-some (load_tiles fl js tiles m.solid) _ m' j in
        along_some (Fills name tiles m) c (ground-Fills name tiles m s a b)
    | inr (a, j) ↦ elim (if-cases (str_eq name "Ladder") _ _ _ j) [
      | inl (l, i) ↦
          let (s, b, c) = bind-some (load_tiles fl js tiles m.ladder) _ m' i in
          along_some (Fills name tiles m) c (ladder-Fills name tiles m s l b)
      | inr (l, i) ↦
          let (s, b, c) = bind-some (load_tiles fl js tiles m.floating_ground) _ m' i in
          along_some (Fills name tiles m) c (floating-Fills name tiles m s (rw (a, l) at h) b)
    ]
  ]
