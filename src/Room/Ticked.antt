-- ===== src/Room/Ticked.antt =====
-- The messages of one player's tick, the body of the loop of `TickAll` (SimpleServer/GameRoom.cpp).
use simple_server.Prelude.{
  ℕ, ◌≡◌, refl, ap, ap₂, ◌∙◌, ◌≢◌, Bool, true, false, not, Option, none, List, [], ◌∷◌, ◌++◌, arith,
  ◌==◌, if◌then◌else◌, if_both,
}
use mathlib.Core.List.{append_assoc}
use simple_server.Keys.{has_key, others_of}
use simple_server.SendBuffer.{SendBuffer}
use simple_server.Opcodes.{op_s_player_state, op_s_broadcast_move}
use simple_server.Float.{FloatOps}
use simple_server.Player.{Player}
use simple_server.World.{World, Outside, buffer_of, s_player_state, s_broadcast_move, update_player}
use simple_server.Room.{send, broadcast_except, move_player, tick_player, state_msg, move_msg}
use simple_server.Room.Quiet.{send-IsQuiet}
use simple_server.Room.Invariant.{IsRoom, IsQuiet-IsRoom}
use simple_server.Room.Kept.{moved-IsPlayer, move_player-IsRoom}
use simple_server.Room.Members.{object-update_player}
use simple_server.Room.Recipients.{
  calls_to, call_of, calls_to_same, send-calls, send_other, broadcast-calls,
}

not-others_of : (id k : ℕ) (ks : List ℕ) → has_key k (others_of id ks) ≡ true → k ≢ id
unfolding has_key others_of
not-others_of id k [] h e = cc
not-others_of id k (j ∷ ks) h e =
    let r = λ (i : has_key k (others_of id ks) ≡ true). not-others_of id k ks i e in ground arith

not_skipped : {A : Type 0} (c : Bool) (x y : A) → c ≡ true → (if not c then x else y) ≡ y
not_skipped true x y e = refl
not_skipped false x y e = absurd (cc)

module _ (fl : FloatOps) (out : Outside (FloatOps.F fl)) where
  open fl use {F}

  -- The two messages about a player.
  abbrev pub state_buffer : Player F → Option SendBuffer
  state_buffer p = buffer_of out op_s_player_state (s_player_state (state_msg fl out p))

  abbrev pub move_buffer : Player F → ℕ → Option SendBuffer
  move_buffer p tick = buffer_of out op_s_broadcast_move (s_broadcast_move (move_msg fl out p tick))

  -- They do not tell of the session.
  move_msg-session :
      (p q : Player F) (tick : ℕ)
      → record p { session = none } ≡ record q { session = none }
      → move_msg fl out p tick ≡ move_msg fl out q tick
  unfolding move_msg
  move_msg-session p q tick e = ap (λ r. move_msg fl out r tick) e

  moved-session :
      (id k : ℕ) (w : World F)
      → IsRoom fl out w
      → ((update_player id (move_player fl out w) w).objects k).session ≡ (w.objects k).session
  unfolding update_player
  moved-session id k w g =
      if_both (λ (p : Player F). p.session ≡ (w.objects k).session) (k == id) _ _
        (moved-IsPlayer fl out w (w.objects k) (g.player k)).1 refl

  moved-calls :
      (id : ℕ) (f : Player F → Player F) (w : World F)
      → ((update_player id f w).calls ≡ w.calls)
        × ((update_player id f w).players ≡ w.players)
        × ((update_player id f w).server_tick ≡ w.server_tick)
  unfolding update_player
  moved-calls id f w = (refl, refl, refl)

  -- The two messages, as one world tells them.
  abbrev tells : ℕ → World F → List (ℕ × Option SendBuffer)
  tells id w =
      call_of (w.objects id).session (state_buffer (w.objects id))
      ++ calls_to (others_of id w.players) (move_buffer (w.objects id) w.server_tick) w

  told-calls :
      (id : ℕ) (w : World F)
      → IsRoom fl out w
      → let v = send fl out id (state_buffer (w.objects id)) w in
        (broadcast_except fl out id (move_buffer (v.objects id) v.server_tick) v).calls
        ≡ w.calls ++ tells id w
  told-calls id w g =
      let own = state_buffer (w.objects id) in
      let v = send fl out id own w in
      let q = send-IsQuiet fl out id own w in
      let told : move_buffer (v.objects id) v.server_tick
          ≡ move_buffer (w.objects id) w.server_tick =
        ap (λ m. buffer_of out op_s_broadcast_move (s_broadcast_move m))
          (move_msg-session (v.objects id) (w.objects id) v.server_tick (q.same_objects id)
            ∙ ap (move_msg fl out (w.objects id)) q.same_tick) in
      let buf = move_buffer (w.objects id) w.server_tick in
      let same =
        calls_to_same (others_of id w.players) buf v w
          (λ k h. send_other fl out id k own w g (not-others_of id k w.players h)) in
      (broadcast-calls fl out id (move_buffer (v.objects id) v.server_tick) v
        (IsQuiet-IsRoom fl out w v q g)).1
      ∙ (ap₂ (λ c l. c ++ l) (send-calls fl out id own w)
            (ap₂ (λ ps b. calls_to (others_of id ps) b v) q.same_players told ∙ same)
          ∙ append_assoc w.calls (call_of (w.objects id).session own)
              (calls_to (others_of id w.players) buf w))

  -- In a room that is in order, the tick of an entered player moves that player, and then calls
  -- `EnqueueSend` once with the new state for the player's own session, and once with the movement for
  -- every other player of the room with a session, in the order of the room, even if calls close
  -- sessions.
  pub tick_player-calls :
      (id : ℕ) (w : World F)
      → IsRoom fl out w
      → (w.objects id).entered ≡ true
      → let p = move_player fl out w (w.objects id) in
        (tick_player fl out id w).calls
        ≡ w.calls
          ++ (call_of (w.objects id).session (state_buffer p)
              ++ calls_to (others_of id w.players) (move_buffer p w.server_tick) w)
  unfolding tick_player
  tick_player-calls id w g entered =
      let f = move_player fl out w in
      let p = f (w.objects id) in
      let w1 = update_player id f w in
      let (calls, players, tick) = moved-calls id f w in
      let obj = object-update_player fl out id f w in
      let others =
        calls_to_same (others_of id w.players) (move_buffer p w.server_tick) w1 w
          (λ k h. moved-session id k w g) in
      ap (λ v. v.calls) (not_skipped (w.objects id).entered w _ entered)
      ∙ (told-calls id w1 (move_player-IsRoom fl out id w g)
          ∙ ap₂ (λ a b. a ++ b) calls
              (ap₂ (λ a b. a ++ b)
                (ap₂ (λ o r. call_of o (state_buffer r)) (moved-session id id w g) obj)
                (ap₂ (λ ps b. calls_to (others_of id ps) b w1) players (ap₂ move_buffer obj tick)
                  ∙ others)))
