-- ===== src/Room/Tick.antt =====
-- What one tick of `TickAll` (SimpleServer/GameRoom.cpp) does with the buffered input of a player.
use simple_server.Prelude.{
  ℕ, zero, suc, ◌≡◌, refl, ap, false, List, [], ◌∷◌, arith, ◌==◌, if◌then◌else◌, length, is_empty,
  take, drop,
}
use simple_server.Float.{FloatOps}
use simple_server.Player.{Player, InputCmd, dequeue_input, take_input, has_input}
use simple_server.World.{World, Outside}
use simple_server.Room.{input_steps, idle_steps, simulate, move_player, max_steps_per_tick}

module _ (fl : FloatOps) (out : Outside (FloatOps.F fl)) where
  open fl use {F}

  -- The commands in order, each simulated.
  abbrev pub replay : World F → List (InputCmd F) → Player F → Player F
  replay w [] p = p
  replay w (c ∷ cs) p = replay w cs (simulate fl out w c p)

  abbrev pub with_buffer : List (InputCmd F) → Player F → Player F
  with_buffer q p = record p { input_buffer = q }

  input_steps_lem :
      (w : World F) (n : ℕ) (q : List (InputCmd F)) (p : Player F)
      → input_steps fl out w n (with_buffer q p)
        ≡ (length (take n q), replay w (take n q) (with_buffer (drop n q) p))
  unfolding input_steps has_input dequeue_input take_input simulate
  input_steps_lem w zero q p = refl
  input_steps_lem w (suc n) [] p = refl
  input_steps_lem w (suc n) (c ∷ q) p =
      ap (λ (r : ℕ × Player F). (suc r.0, r.1)) (input_steps_lem w n q (simulate fl out w c p))

  moved_with :
      (w : World F) (q : List (InputCmd F)) (p : Player F)
      → move_player fl out w (with_buffer q p) ≡ (
          if is_empty q
          then idle_steps fl out w 3 (with_buffer q p)
          else replay w (take 8 q) (with_buffer (drop 8 q) p))
  unfolding move_player
  moved_with w [] p = rw (input_steps_lem w 8 [] p)
  moved_with w (c ∷ q) p =
      let some_steps : (suc (length (take 7 q)) == 0) ≡ false = ground arith in
      rw (input_steps_lem w 8 (c ∷ q) p, some_steps)

  -- In one tick a player is moved by the first 8 of the buffered commands, in their order, and the
  -- others stay buffered; without a buffered command, by three steps of no input.
  pub move_player_lem :
      (w : World F) (p : Player F)
      → move_player fl out w p ≡ (
          if is_empty p.input_buffer
          then idle_steps fl out w 3 p
          else replay w
              (take (max_steps_per_tick fl out) p.input_buffer)
              (with_buffer (drop (max_steps_per_tick fl out) p.input_buffer) p))
  move_player_lem w p = moved_with w p.input_buffer p
