-- ===== src/Map/Contents.antt =====
-- What `Map::Load` (SimpleServer/Map.cpp) leaves in the three sets, said of the JSON text alone.
use simple_server.Prelude.{
  ◌≡◌, refl, sym, inl, inr, Bool, true, false, not, ◌&&◌, ◌||◌, Option, none, some, List, [], ◌∷◌,
  arith, if◌then◌else◌, along_some, if-cases, bind-some,
}
use Prim.Native.String.{String}
use text.Mathlib.Text.{◌==◌ as str_eq}
use mathlib.Core.Bool.{false≢true}
use simple_server.Prelude.Int.{ℤ}
use simple_server.Float.{FloatOps}
use simple_server.Map.{Map, pack_cell, contains, is_solid, is_ladder, is_floating_ground}
use simple_server.Map.Load.{
  JsonOps, read_cell_size, fill_target, load_layer, load_layers, load_json,
}
use simple_server.Map.Tiles.{lists, Adds, Fills, fill_target-Fills}

module _ (fl : FloatOps) (js : JsonOps (FloatOps.F fl)) where
  open fl use {F, lit, eq}
  open js use {Json, has, at, is_array, elements, value_string, value_float, value_int}

  abbrev pub is_called : Option String → String → Bool
  is_called none wanted = false
  is_called (some name) wanted = str_eq name wanted

  -- Does the layer have this name, and list the key in its array of tiles?
  abbrev pub draws_in : String → Json → ℤ → Bool
  draws_in wanted l k =
      is_called (value_string l "name" "") wanted
      && has l "tiles"
      && is_array (at l "tiles")
      && lists fl js (elements (at l "tiles")) k

  -- Does a layer of this name list the key in its array of tiles?
  abbrev pub draws : String → List Json → ℤ → Bool
  draws wanted [] k = false
  draws wanted (l ∷ ls) k = draws_in wanted l k || draws wanted ls k

  -- The cell size is no matter.
  same_cells :
      (l : Json) (m m' : Map F)
      → read_cell_size fl js l m ≡ some m'
      → (m'.solid ≡ m.solid) × (m'.ladder ≡ m.ladder) × (m'.floating_ground ≡ m.floating_ground)
  unfolding read_cell_size
  same_cells l m m' e =
      let Same : Map F → Type 0 = λ v.
        (v.solid ≡ m.solid) × (v.ladder ≡ m.ladder) × (v.floating_ground ≡ m.floating_ground) in
      elim (if-cases (eq m.cell_size_x (lit 1 0) && eq m.cell_size_y (lit 1 0)) _ _ _ e) [
        | inl (a, j) ↦
            let (x, b, j1) = bind-some (value_float l "cellSizeX" (lit 1 0)) _ m' j in
            let (y, c, j2) = bind-some (value_float l "cellSizeY" (lit 1 0)) _ m' j1 in
            along_some Same j2 (refl, refl, refl)
        | inr (a, j) ↦ along_some Same j (refl, refl, refl)
      ]

  -- The array of tiles of a layer, if it has one.
  abbrev Lays : String → Json → Map F → Map F → Type 0
  Lays name l m m' =
      let here : String → ℤ → Bool = λ wanted k.
        str_eq name wanted
        && has l "tiles"
        && is_array (at l "tiles")
        && lists fl js (elements (at l "tiles")) k in
      Adds fl js m m' (here "Ground") (here "Ladder") (here "Floating Ground")

  nothing-Lays :
      (name : String) (l : Json) (m : Map F)
      → ((str_eq name "Ground" || str_eq name "Ladder" || str_eq name "Floating Ground")
          && (has l "tiles" && is_array (at l "tiles")))
        ≡ false
      → Lays name l m m
  nothing-Lays name l m h = record {
    solid = λ k. ground arith;
    ladder = λ k. ground arith;
    floating = λ k. ground arith;
  }

  tiles-Lays :
      (name : String) (l : Json) (m m' : Map F)
      → (not (has l "tiles") || not (is_array (at l "tiles"))) ≡ false
      → Fills fl js name (elements (at l "tiles")) m m'
      → Lays name l m m'
  tiles-Lays name l m m' h v = record {
    solid = λ k. ground (arith, v.solid k);
    ladder = λ k. ground (arith, v.ladder k);
    floating = λ k. ground (arith, v.floating k);
  }

  layer-Lays :
      (name : String) (l : Json) (m m' : Map F)
      → (if not (str_eq name "Ground" || str_eq name "Ladder" || str_eq name "Floating Ground")
          then some m
          else if not (has l "tiles") || not (is_array (at l "tiles"))
          then some m
          else fill_target fl js name (elements (at l "tiles")) m)
        ≡ some m'
      → Lays name l m m'
  layer-Lays name l m m' e =
      elim (if-cases
        (not (str_eq name "Ground" || str_eq name "Ladder" || str_eq name "Floating Ground")) _ _ _
        e) [
          | inl (a, j) ↦ along_some (Lays name l m) j (nothing-Lays name l m (ground arith))
          | inr (a, j) ↦
              elim (if-cases (not (has l "tiles") || not (is_array (at l "tiles"))) _ _ _ j) [
                | inl (b, i) ↦ along_some (Lays name l m) i (nothing-Lays name l m (ground arith))
                | inr (b, i) ↦
                    tiles-Lays name l m m' b
                      (fill_target-Fills fl js name (elements (at l "tiles")) m m' (ground arith) i)
              ]
        ]

  -- What a layer adds, by its text.
  abbrev Draws : Json → Map F → Map F → Type 0
  Draws l m m' =
      Adds fl js m m' (draws_in "Ground" l) (draws_in "Ladder" l) (draws_in "Floating Ground" l)

  load_layer-Draws : (l : Json) (m m' : Map F) → load_layer fl js l m ≡ some m' → Draws l m m'
  unfolding load_layer
  load_layer-Draws l m m' e =
      let (name, a, e1) = bind-some (value_string l "name" "") _ m' e in
      let (m1, b, e2) = bind-some (read_cell_size fl js l m) _ m' e1 in
      let v = layer-Lays name l m1 m' e2 in
      let (p, q, r) = same_cells l m m1 b in
      record {
        solid = λ k. rw (a, sym p) (v.solid k);
        ladder = λ k. rw (a, sym q) (v.ladder k);
        floating = λ k. rw (a, sym r) (v.floating k);
      }

  load_layers-Adds :
      (ls : List Json) (m m' : Map F)
      → load_layers fl js ls m ≡ some m'
      → Adds fl js m m' (draws "Ground" ls) (draws "Ladder" ls) (draws "Floating Ground" ls)
  unfolding load_layers
  load_layers-Adds [] m m' e =
      along_some (λ (v : Map F). Adds fl js m v (λ k. false) (λ k. false) (λ k. false)) e
        (record { solid = λ k. refl; ladder = λ k. refl; floating = λ k. refl })
  load_layers-Adds (l ∷ ls) m m' e =
      let (m1, a, b) = bind-some (load_layer fl js l m) (load_layers fl js ls) m' e in
      let v = load_layer-Draws l m m1 a in
      let u = load_layers-Adds ls m1 m' b in
      record {
        solid = λ k. ground (arith, v.solid k, u.solid k);
        ladder = λ k. ground (arith, v.ladder k, u.ladder k);
        floating = λ k. ground (arith, v.floating k, u.floating k);
      }

  -- When `Load` succeeds on a text, a cell is solid, ladder or floating ground exactly if its key is
  -- listed in a layer named "Ground", "Ladder" or "Floating Ground", whatever the map held before; and
  -- the map counts as loaded.
  pub load_json_lem :
      (j : Json) (m m' : Map F) (cx cy : ℤ)
      → load_json fl js j m ≡ some (true, m')
      → let ls = elements (at j "layers") in
        let k = pack_cell cx cy in
        (is_solid m' cx cy ≡ draws "Ground" ls k)
        × (is_ladder m' cx cy ≡ draws "Ladder" ls k)
        × (is_floating_ground m' cx cy ≡ draws "Floating Ground" ls k)
        × (m'.loaded ≡ true)
  unfolding load_json is_solid is_ladder is_floating_ground contains
  load_json_lem j m m' cx cy e =
      let m0 = record m { solid = []; ladder = []; floating_ground = [] } in
      let ls = elements (at j "layers") in
      let k = pack_cell cx cy in
      elim (if-cases (not (has j "layers") || not (is_array (at j "layers"))) _ _ _ e) [
        | inl (a, i) ↦ absurd (false≢true (along_some (λ (r : Bool × Map F). false ≡ r.0) i refl))
        | inr (a, i) ↦
            let (m1, b, c) = bind-some (load_layers fl js ls m0) _ (true, m') i in
            let v = load_layers-Adds ls m0 m1 b in
            along_some
              (λ (r : Bool × Map F).
                (contains r.1.solid k ≡ draws "Ground" ls k)
                × (contains r.1.ladder k ≡ draws "Ladder" ls k)
                × (contains r.1.floating_ground k ≡ draws "Floating Ground" ls k)
                × (r.1.loaded ≡ true))
              c
              (
                ground (arith, v.solid k),
                ground (arith, v.ladder k),
                ground (arith, v.floating k),
                refl,
              )
      ]
