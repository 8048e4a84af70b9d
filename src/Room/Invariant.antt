-- ===== src/Room/Invariant.antt =====
-- What the methods of the room keep: SimpleServer/GameRoom.cpp and the callbacks of
-- SimpleServer/ServerMain.cpp.
use simple_server.Prelude.{
  ℕ, ◌^◌, ◌≤◌, ◌<◌, ◌≡◌, refl, sym, ap, ◌∙◌, ◌⊎◌, inl, inr, Bool, not, ◌||◌, Option, none, some,
  List, [], ◌∷◌, ltb, ◌==◌, ◌>>=◌, length, is_empty, along_some, if-cases, if_both, bind-some,
}
use simple_server.Keys.{has_key, erase_key, IsUnique, IsUnique-erase_key}
use simple_server.Opcodes.{op_s_despawn}
use simple_server.SendBuffer.{SendBuffer}
use simple_server.Float.{FloatOps}
use simple_server.Map.{Map}
use simple_server.Player.{Player, PhysicsState, max_input_buffer, set_name}
use simple_server.Physics.Ladder.{handle_ladder_state, Extent, set_extent, enter_ladder}
use simple_server.Physics.Facts.{IsStill}
use simple_server.World.{
  buffer_of, s_despawn, World, Outside, Task, enter_task, leave_task, enter_game_task, chat_task,
  attack_task, ladder_task, update_player,
}
use simple_server.Room.{
  enter, leave, enter_game, broadcast, broadcast_attack, chat, with_state, ladder_state, run_task,
  run_tasks, send_each,
}
use simple_server.Room.Quiet.{IsQuiet, send_each-IsQuiet}
use simple_server.Room.Members.{enter_lem, announce-IsQuiet}

module _ (fl : FloatOps) (out : Outside (FloatOps.F fl)) where
  open fl use {F}

  -- A player object: at most 32 commands are buffered, and the horizontal velocity is 0.
  pub record IsPlayer (p : Player F) : Type 0 where
    pub bounded : length p.input_buffer ≤ max_input_buffer
    pub still : IsStill fl p.phys_state

  -- The room has nobody twice, its tick is a 32-bit word, its players are in order, and the session of
  -- a player is one whose player it is.
  pub record IsRoom (w : World F) : Type 0 where
    pub unique : IsUnique w.players
    pub tick : w.server_tick < 2 ^ 32
    pub player : (k : ℕ) → IsPlayer (w.objects k)
    pub owned : (k s : ℕ) → (w.objects k).session ≡ some s → w.session_player s ≡ some k

  -- Sending.
  still-owned :
      (w : World F) (k s : ℕ) (o p : Option ℕ)
      → (p ≡ none) ⊎ (p ≡ o)
      → (o ≡ some s → w.session_player s ≡ some k)
      → p ≡ some s
      → w.session_player s ≡ some k
  still-owned w k s o p (inl gone) h e = absurd (cc)
  still-owned w k s o p (inr kept) h e = h (sym kept ∙ e)

  pub IsQuiet-IsRoom : (w v : World F) → IsQuiet w v → IsRoom w → IsRoom v
  IsQuiet-IsRoom w v q g = record {
    unique = rw q.same_players g.unique;
    tick = rw q.same_tick g.tick;
    player = λ k. record {
      bounded = rw (ap (λ (p : Player F). p.input_buffer) (q.same_objects k)) (g.player k).bounded;
      still = ap (λ (p : Player F). p.phys_state.vel.x) (q.same_objects k) ∙ (g.player k).still;
    };
    owned = λ k s e. rw q.same_owners (
        still-owned w k s (w.objects k).session (v.objects k).session (q.dropped_or_kept k)
          (g.owned k s) e);
  }

  -- A change of one player that leaves its session alone.
  pub update-IsRoom :
      (id : ℕ) (f : Player F → Player F) (w : World F)
      → ((p : Player F) → IsPlayer p → IsPlayer (f p) × ((f p).session ≡ p.session))
      → IsRoom w
      → IsRoom (update_player id f w)
  unfolding update_player
  update-IsRoom id f w h g = record {
    unique = g.unique;
    tick = g.tick;
    player = λ k. if_both IsPlayer (k == id) _ _ (h (w.objects k) (g.player k)).0 (g.player k);
    owned = λ k s c. g.owned k s (
        sym (
          if_both (λ (p : Player F). p.session ≡ (w.objects k).session) (k == id) _ _
            (h (w.objects k) (g.player k)).1 refl)
        ∙ c);
  }

  with_players-IsRoom :
      (ks : List ℕ) (w : World F) → IsUnique ks → IsRoom w → IsRoom (record w { players = ks })
  with_players-IsRoom ks w u g = record {
    unique = u;
    tick = g.tick;
    player = g.player;
    owned = g.owned;
  }

  pub send_each-IsRoom :
      (ids : List ℕ) (buf : Option SendBuffer) (w : World F)
      → IsRoom w
      → IsRoom (send_each fl out ids buf w)
  send_each-IsRoom ids buf w = IsQuiet-IsRoom w _ (send_each-IsQuiet fl out ids buf w)

  -- ── Tasks ──

  enter_game-IsRoom :
      (id : ℕ) (name : List ℕ) (w : World F) → IsRoom w → IsRoom (enter_game fl out id name w)
  unfolding enter_game set_name
  enter_game-IsRoom id name w g =
      let v = update_player id (set_name name) w in
      if_both IsRoom (is_empty name || ltb 20 (length name)) _ _ g (
        if_both IsRoom (w.objects id).entered _ _ g (
          IsQuiet-IsRoom v _ (announce-IsQuiet fl out id v) (
            update-IsRoom id (set_name name) w
              (λ p h. (record { bounded = h.bounded; still = h.still }, refl)) g)))

  extent-IsStill :
      (m : Option (Extent fl)) (px py : F) (s t : PhysicsState F)
      → (m >>= λ e. some (set_extent fl e (enter_ladder fl px py s))) ≡ some t
      → IsStill fl t
  unfolding enter_ladder set_extent
  extent-IsStill none px py s t e = absurd (cc)
  extent-IsStill (some x) px py s t e = along_some (IsStill fl) e refl

  handle_ladder_state-IsStill :
      (m : Map F) (on : Bool) (px py : F) (s t : PhysicsState F)
      → IsStill fl s
      → handle_ladder_state fl m on px py s ≡ some t
      → IsStill fl t
  unfolding handle_ladder_state enter_ladder
  handle_ladder_state-IsStill m on px py s t h e = elim (if-cases (not on) _ _ _ e) [
    | inl (a, k) ↦ along_some (IsStill fl) k h
    | inr (a, k) ↦ elim (if-cases (not m.loaded) _ _ _ k) [
      | inl (b, j) ↦ along_some (IsStill fl) j refl
      | inr (b, j) ↦ extent-IsStill _ px py s t j
    ]
  ]

  with_state-IsRoom :
      (m : Option (PhysicsState F)) (id : ℕ) (w v : World F)
      → ((t : PhysicsState F) → m ≡ some t → IsStill fl t)
      → IsRoom w
      → with_state fl out m id w ≡ some v
      → IsRoom v
  unfolding with_state
  with_state-IsRoom none id w v h g e = absurd (cc)
  with_state-IsRoom (some t) id w v h g e = along_some IsRoom e (
      update-IsRoom id (λ p. record p { phys_state = t }) w
        (λ p q. (record { bounded = q.bounded; still = h t refl }, refl)) g)

  leave-IsRoom : (id : ℕ) (w : World F) → IsRoom w → IsRoom (leave fl out id w)
  unfolding leave broadcast
  leave-IsRoom id w g =
      let w1 = send_each fl out w.players (buffer_of out op_s_despawn (s_despawn (id ∷ []))) w in
      let g1 = send_each-IsRoom w.players _ w g in
      if_both IsRoom (not (has_key id w.players)) w _ g (
        with_players-IsRoom (erase_key id w1.players) w1
          (IsUnique-erase_key id w1.players g1.unique) g1)

  run_task-IsRoom :
      (t : Task F) (w v : World F) → IsRoom w → run_task fl out t w ≡ some v → IsRoom v
  unfolding run_task enter broadcast_attack chat broadcast ladder_state leave
  run_task-IsRoom (enter_task id) w v g e =
      along_some IsRoom e (with_players-IsRoom _ w (enter_lem id w g.unique).0 g)
  run_task-IsRoom (leave_task id) w v g e = along_some IsRoom e (leave-IsRoom id w g)
  run_task-IsRoom (enter_game_task id name) w v g e =
      along_some IsRoom e (enter_game-IsRoom id name w g)
  run_task-IsRoom (chat_task id message type) w v g e =
      along_some IsRoom e (send_each-IsRoom w.players _ w g)
  run_task-IsRoom (attack_task id skill type x y) w v g e =
      along_some IsRoom e (send_each-IsRoom w.players _ w g)
  run_task-IsRoom (ladder_task id on px py vx vy) w v g e =
      with_state-IsRoom _ id w v
        (λ t h.
          handle_ladder_state-IsStill w.map on px py (w.objects id).phys_state t (g.player id).still
            h)
        g e

  pub run_tasks-IsRoom :
      (ts : List (Task F)) (w v : World F) → IsRoom w → run_tasks fl out ts w ≡ some v → IsRoom v
  unfolding run_tasks
  run_tasks-IsRoom [] w v g e = along_some IsRoom e g
  run_tasks-IsRoom (t ∷ ts) w v g e =
      let (u, a, b) = bind-some (run_task fl out t w) (run_tasks fl out ts) v e in
      run_tasks-IsRoom ts u v (run_task-IsRoom t w u g a) b
