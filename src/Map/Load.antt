-- ===== src/Map/Load.antt =====
-- `Map::Load` of SimpleServer/Map.cpp. The file system and nlohmann::json are an interface. An
-- exception of `value` leaves `Load`, since only the parse is under `try`: it is `none`.
use simple_server.Prelude.{
  Bool, true, false, not, ◌&&◌, ◌||◌, Option, none, some, List, [], ◌∷◌, if◌then◌else◌, ◌>>=◌,
}
use Prim.Native.String.{String}
use text.Mathlib.Text.{◌==◌ as str_eq}
use simple_server.Prelude.Int.{ℤ, pos}
use simple_server.Float.{FloatOps}
use simple_server.Map.{Map, pack_cell, insert}

pub record JsonOps (F : Type 0) : Type 1 where
  pub Json : Type 0
  -- The contents of a file; `none` if it cannot be opened.
  pub read_file : String → Option String
  -- `file >> j`; `none` if that throws.
  pub parse : String → Option Json
  pub has : Json → String → Bool
  pub at : Json → String → Json
  pub is_array : Json → Bool
  -- The elements that `for (… : j)` visits.
  pub elements : Json → List Json
  -- `j.value(key, default)`; `none` if it throws.
  pub value_string : Json → String → String → Option String
  pub value_float : Json → String → F → Option F
  pub value_int : Json → String → ℤ → Option ℤ

module _ (fl : FloatOps) where
  module _ (js : JsonOps (FloatOps.F fl)) where
    open fl use {F, lit, eq}
    open js use {
      Json, read_file, parse, has, at, is_array, elements, value_string, value_float, value_int,
    }

    unfoldable pub load_tiles : List Json → List ℤ → Option (List ℤ)
    load_tiles [] target = some target
    load_tiles (tile ∷ tiles) target = do
      cx ← value_int tile "x" (pos 0)
      cy ← value_int tile "y" (pos 0)
      load_tiles tiles (insert (pack_cell cx cy) target)

    -- The cell size is read while both sizes are still 1.
    unfoldable pub read_cell_size : Json → Map F → Option (Map F)
    read_cell_size layer m =
        if eq m.cell_size_x (lit 1 0) && eq m.cell_size_y (lit 1 0)
        then (do
          x ← value_float layer "cellSizeX" (lit 1 0)
          y ← value_float layer "cellSizeY" (lit 1 0)
          some (record m { cell_size_x = x; cell_size_y = y }))
        else some m

    -- The set that a layer fills, by its name; `tiles` is the array of that layer.
    unfoldable pub fill_target : String → List Json → Map F → Option (Map F)
    fill_target name tiles m =
        if str_eq name "Ground"
        then (do s ← load_tiles tiles m.solid; some (record m { solid = s }))
        else if str_eq name "Ladder"
        then (do s ← load_tiles tiles m.ladder; some (record m { ladder = s }))
        else (do s ← load_tiles tiles m.floating_ground; some (record m { floating_ground = s }))

    unfoldable pub load_layer : Json → Map F → Option (Map F)
    load_layer layer m = do
      name ← value_string layer "name" ""
      m1 ← read_cell_size layer m
      (if not (str_eq name "Ground" || str_eq name "Ladder" || str_eq name "Floating Ground")
          then some m1
          else if not (has layer "tiles") || not (is_array (at layer "tiles"))
          then some m1
          else fill_target name (elements (at layer "tiles")) m1)

    unfoldable pub load_layers : List Json → Map F → Option (Map F)
    load_layers [] m = some m
    load_layers (layer ∷ layers) m = load_layer layer m >>= load_layers layers

    unfoldable pub load_json : Json → Map F → Option (Bool × Map F)
    load_json j m =
        if not (has j "layers") || not (is_array (at j "layers")) then some (false, m) else (do
          m1 ←
              load_layers (elements (at j "layers"))
                (record m { solid = []; ladder = []; floating_ground = [] })
          some (true, record m1 { loaded = true }))

    load_text : Option Json → Map F → Option (Bool × Map F)
    unfolding load_json
    load_text none m = some (false, m)
    load_text (some j) m = load_json j m

    load_file : Option String → Map F → Option (Bool × Map F)
    unfolding load_text
    load_file none m = some (false, m)
    load_file (some text) m = load_text (parse text) m

    unfoldable pub load : String → Map F → Option (Bool × Map F)
    unfolding load_file
    load json_path m = load_file (read_file json_path) m
