-- ===== src/Room/Loop.antt =====
-- `GameLoopThread` of SimpleServer/GameRoom.cpp against the clock, in milliseconds. What a round takes,
-- with the delay of a late wake-up before it, is an argument; `StopGameLoop` ends the list of rounds.
use simple_server.Prelude.{
  ℕ, ◌+◌, ◌-◌, ◌*◌, ◌≡◌, refl, ap, ap₂, ◌∙◌, Option, some, List, [], ◌∷◌, arith, ltb, if◌then◌else◌,
  ◌>>=◌, length,
}
use simple_server.Float.{FloatOps}
use simple_server.World.{World, Outside}
use simple_server.Room.{game_round}
use simple_server.Room.Rounds.{game_round_total}

abbrev pub tick_interval : ℕ
tick_interval = 50

-- When the thread goes on: `if (now < nextTick) sleep_until(nextTick);`
unfoldable pub wait_for_tick : ℕ → ℕ → ℕ
wait_for_tick now next_tick = if ltb now next_tick then next_tick else now

pub record Loop (F : Type 0) : Type 0 where
  pub now : ℕ
  pub next_tick : ℕ
  pub world : World F

module _ (fl : FloatOps) (out : Outside (FloatOps.F fl)) where
  open fl use {F}

  unfoldable pub start_game_loop : ℕ → World F → Loop F
  start_game_loop now w = record { now = now; next_tick = now + tick_interval; world = w }

  unfoldable pub loop_round : ℕ → Loop F → Option (Loop F)
  loop_round took l = game_round fl out l.world >>= λ w. some (record {
    now = wait_for_tick (l.now + took) l.next_tick;
    next_tick = l.next_tick + tick_interval;
    world = w;
  })

  unfoldable pub game_loop : List ℕ → Loop F → Option (Loop F)
  game_loop [] l = some l
  game_loop (took ∷ rest) l = loop_round took l >>= game_loop rest

  -- How late the loop is after rounds of these lengths, if it was `lag` late: a round shorter than 50
  -- milliseconds makes up for what is left of them.
  abbrev pub lag_after : ℕ → List ℕ → ℕ
  lag_after lag [] = lag
  lag_after lag (took ∷ rest) = lag_after (lag + took - tick_interval) rest

  loop_round_lem :
      (took t lag : ℕ) (w : World F)
      → (v : World F) × (loop_round took (record { now = t + lag; next_tick = t + 50; world = w })
          ≡ some (record { now = t + 50 + (lag + took - 50); next_tick = t + 50 + 50; world = v }))
  unfolding loop_round wait_for_tick
  loop_round_lem took t lag w =
      let (v, e) = game_round_total fl out w in
      let n : (if ltb (t + lag + took) (t + 50) then t + 50 else t + lag + took)
          ≡ t + 50 + (lag + took - 50) =
        ground arith in
      (v, rw (e, n) refl)

  game_loop_lem :
      (rounds : List ℕ) (t lag : ℕ) (w : World F)
      → (v : World F) × (game_loop rounds (record { now = t + lag; next_tick = t + 50; world = w })
          ≡ some (record {
            now = t + 50 * length rounds + lag_after lag rounds;
            next_tick = t + 50 * (length rounds + 1);
            world = v;
          }))
  unfolding game_loop
  game_loop_lem [] t lag w = (
    w,
    ap₂ (λ a b. some (record { now = a; next_tick = b; world = w })) (omega arith) (omega arith),
  )
  game_loop_lem (took ∷ rest) t lag w =
      let (u, e) = loop_round_lem took t lag w in
      let (v, h) = game_loop_lem rest (t + 50) (lag + took - 50) u in
      (
        v,
        ap (λ m. m >>= game_loop rest) e
            ∙ h
            ∙ ap₂ (λ a b. some (record { now = a; next_tick = b; world = v })) (omega arith)
                (omega arith),
      )

  -- The game loop runs through rounds of any lengths, and does not drift: after `n` rounds it is at
  -- `n` times 50 milliseconds after its start, and as much later as it has not made up for.
  pub game_loop-on_time :
      (rounds : List ℕ) (start : ℕ) (w : World F)
      → (v : World F) × (game_loop rounds (start_game_loop start w)
          ≡ some (record {
            now = start + 50 * length rounds + lag_after 0 rounds;
            next_tick = start + 50 * (length rounds + 1);
            world = v;
          }))
  unfolding start_game_loop
  game_loop-on_time rounds start w =
      let (v, e) = game_loop_lem rounds start 0 w in
      (
        v,
        ap (λ a. game_loop rounds (record { now = a; next_tick = start + 50; world = w }))
              (omega arith)
            ∙ e,
      )
