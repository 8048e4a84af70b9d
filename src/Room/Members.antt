-- ===== src/Room/Members.antt =====
-- Who is in the room: `Enter`, `Leave` and `EnterGame` of SimpleServer/GameRoom.cpp.
use simple_server.Prelude.{
  ℕ, ◌≡◌, refl, ap, ◌∙◌, ◌≢◌, Bool, true, false, not, ◌||◌, List, [], ◌∷◌, arith, ltb, ◌==◌,
  if◌then◌else◌, length, is_empty,
}
use simple_server.Float.{FloatOps}
use simple_server.Player.{Player, set_name}
use simple_server.Opcodes.{op_s_despawn}
use simple_server.World.{buffer_of, s_despawn, World, Outside, update_player}
use simple_server.Keys.{
  has_key, erase_key, IsUnique, has_key-insert_key, IsUnique-insert_key, has_key-erase_key_self,
  has_key-erase_key_ne, IsUnique-erase_key,
}
use simple_server.Room.{enter, leave, announce, enter_game, broadcast}
use simple_server.Room.Quiet.{IsQuiet, IsQuiet-trans, send-IsQuiet, send_each-IsQuiet}

leave_keys :
    (id : ℕ) (ks : List ℕ) (b : Bool)
    → has_key id ks ≡ b
    → IsUnique ks
    → let new = if not b then ks else erase_key id ks in
      IsUnique new × (has_key id new ≡ false) × ((k : ℕ) → k ≢ id → has_key k new ≡ has_key k ks)
leave_keys id ks true e u = (
  IsUnique-erase_key id ks u,
  has_key-erase_key_self id ks u,
  λ k n. has_key-erase_key_ne id k ks n,
)
leave_keys id ks false e u = (u, e, λ k n. refl)

module _ {F : Type 0} where
  -- After `Enter` the player is in the room, beside those who were, and nobody is in it twice if
  -- nobody was.
  pub enter_lem :
      (id : ℕ) (w : World F)
      → IsUnique w.players
      → IsUnique (enter id w).players
        × ((k : ℕ) → has_key k (enter id w).players ≡ (has_key k w.players || id == k))
  unfolding enter
  enter_lem id w u = (IsUnique-insert_key id w.players u, λ k. has_key-insert_key id k w.players)

module _ (fl : FloatOps) (out : Outside (FloatOps.F fl)) where
  open fl use {F}

  pub players-leave :
      (id : ℕ) (w : World F)
      → (leave fl out id w).players
        ≡ (if not (has_key id w.players) then w.players else erase_key id w.players)
  unfolding leave broadcast
  players-leave id w = ground (
    arith,
    (send_each-IsQuiet fl out w.players (buffer_of out op_s_despawn (s_despawn (id ∷ [])))
        w).same_players,
  )

  -- From a room that nobody is in twice, after `Leave` the player is not in it, all others are in it
  -- as before, and nobody is in it twice.
  pub leave_lem :
      (id : ℕ) (w : World F)
      → IsUnique w.players
      → IsUnique (leave fl out id w).players
        × (has_key id (leave fl out id w).players ≡ false)
        × ((k : ℕ) → k ≢ id → has_key k (leave fl out id w).players ≡ has_key k w.players)
  leave_lem id w u = rw (players-leave id w) (leave_keys id w.players (has_key id w.players) refl u)

  pub announce-IsQuiet : (id : ℕ) (w : World F) → IsQuiet w (announce fl out id w)
  unfolding announce
  announce-IsQuiet id w =
      IsQuiet-trans w _ _ (send-IsQuiet fl out id _ w)
        (IsQuiet-trans _ _ _ (send-IsQuiet fl out id _ _) (send_each-IsQuiet fl out _ _ _))

  pub object-update_player :
      (id : ℕ) (f : Player F → Player F) (w : World F)
      → (update_player id f w).objects id ≡ f (w.objects id)
  unfolding update_player
  object-update_player id f w = ground arith

  announce-entered :
      (id : ℕ) (name : List ℕ) (w : World F)
      → ((announce fl out id (update_player id (set_name name) w)).objects id).entered ≡ true
  unfolding set_name
  announce-entered id name w =
      let v = update_player id (set_name name) w in
      ap (λ (p : Player F). p.entered) ((announce-IsQuiet id v).same_objects id)
      ∙ ap (λ (p : Player F). p.entered) (object-update_player id (set_name name) w)

  -- `EnterGame` with a name of 1 to 20 bytes makes the player entered.
  enter_game-entered :
      (id : ℕ) (name : List ℕ) (w : World F)
      → (is_empty name || ltb 20 (length name)) ≡ false
      → ((enter_game fl out id name w).objects id).entered ≡ true
  unfolding enter_game
  enter_game-entered id name w h = ground (arith, announce-entered id name w)

  entered_again :
      (id : ℕ) (again : List ℕ) (v : World F)
      → (v.objects id).entered ≡ true
      → enter_game fl out id again v ≡ v
  unfolding enter_game
  entered_again id again v e = ground arith

  -- A player enters at most once: after an `EnterGame` with a name of 1 to 20 bytes another one, with
  -- any name, changes nothing and sends nothing.
  enter_game_once :
      (id : ℕ) (name again : List ℕ) (w : World F)
      → (is_empty name || ltb 20 (length name)) ≡ false
      → enter_game fl out id again (enter_game fl out id name w) ≡ enter_game fl out id name w
  enter_game_once id name again w h =
      entered_again id again (enter_game fl out id name w) (enter_game-entered id name w h)
