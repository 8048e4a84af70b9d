-- ===== src/Room/Quiet.antt =====
-- What sending changes in the shared state, whether or not it closes sessions: SimpleServer/GameRoom.cpp
-- and the callback `SetOnDisconnected` of SimpleServer/ServerMain.cpp.
use simple_server.Prelude.{
  ℕ, ◌≡◌, refl, ◌∙◌, ◌⊎◌, inl, inr, Bool, true, false, Option, none, some, List, [], ◌∷◌, ◌++◌,
  ◌==◌, if◌then◌else◌, if_both,
}
use simple_server.SendBuffer.{SendBuffer}
use simple_server.Float.{FloatOps}
use simple_server.Player.{Player, set_session}
use simple_server.World.{World, Outside, disconnect, on_disconnected, enqueue}
use simple_server.Room.{send_session, send, send_each}

-- Only session pointers, tasks and calls differ.
pub record IsQuiet {F : Type 0} (w v : World F) : Type 0 where
  pub same_players : v.players ≡ w.players
  pub same_map : v.map ≡ w.map
  pub same_tick : v.server_tick ≡ w.server_tick
  pub same_owners : v.session_player ≡ w.session_player
  pub same_objects :
      (k : ℕ) → record (v.objects k) { session = none } ≡ record (w.objects k) { session = none }
  pub dropped_or_kept :
      (k : ℕ) → ((v.objects k).session ≡ none) ⊎ ((v.objects k).session ≡ (w.objects k).session)

module _ {F : Type 0} where
  pub IsQuiet-refl : (w : World F) → IsQuiet w w
  IsQuiet-refl w = record {
    same_players = refl;
    same_map = refl;
    same_tick = refl;
    same_owners = refl;
    same_objects = λ k. refl;
    dropped_or_kept = λ k. inr refl;
  }

  pub IsQuiet-trans : (u v w : World F) → IsQuiet u v → IsQuiet v w → IsQuiet u w
  IsQuiet-trans u v w a b = record {
    same_players = b.same_players ∙ a.same_players;
    same_map = b.same_map ∙ a.same_map;
    same_tick = b.same_tick ∙ a.same_tick;
    same_owners = b.same_owners ∙ a.same_owners;
    same_objects = λ k. b.same_objects k ∙ a.same_objects k;
    dropped_or_kept = λ k. elim (b.dropped_or_kept k) [
      | inl gone ↦ inl gone
      | inr e ↦ rw e (a.dropped_or_kept k)
    ];
  }

  set_session-forgets :
      (b : Bool) (p : Player F)
      → record (if b then set_session none p else p) { session = none }
        ≡ record p { session = none }
  unfolding set_session
  set_session-forgets true p = refl
  set_session-forgets false p = refl

  set_session-drops :
      (b : Bool) (p : Player F)
      → let q = if b then set_session none p else p in (q.session ≡ none) ⊎ (q.session ≡ p.session)
  unfolding set_session
  set_session-drops true p = inl refl
  set_session-drops false p = inr refl

  disconnect-IsQuiet : (o : Option ℕ) (w : World F) → IsQuiet w (disconnect o w)
  unfolding disconnect
  disconnect-IsQuiet none w = IsQuiet-refl w
  disconnect-IsQuiet (some id) w = record {
    same_players = refl;
    same_map = refl;
    same_tick = refl;
    same_owners = refl;
    same_objects = λ k. set_session-forgets (k == id) (w.objects k);
    dropped_or_kept = λ k. set_session-drops (k == id) (w.objects k);
  }

  pub on_disconnected-IsQuiet : (s : ℕ) (w : World F) → IsQuiet w (on_disconnected s w)
  unfolding on_disconnected
  on_disconnected-IsQuiet s w = disconnect-IsQuiet (w.session_player s) w

  logged : (c : List (ℕ × Option SendBuffer)) (w : World F) → IsQuiet w (record w { calls = c })
  logged c w = record {
    same_players = refl;
    same_map = refl;
    same_tick = refl;
    same_owners = refl;
    same_objects = λ k. refl;
    dropped_or_kept = λ k. inr refl;
  }

  enqueue-IsQuiet :
      (out : Outside F) (s : ℕ) (buf : Option SendBuffer) (w : World F)
      → IsQuiet w (enqueue out s buf w)
  unfolding enqueue
  enqueue-IsQuiet out s buf w =
      let c = w.calls ++ ((s, buf) ∷ []) in
      let w1 = record w { calls = c } in
      if_both (IsQuiet w) (out.closes w.calls s) _ _
        (IsQuiet-trans w w1 (on_disconnected s w1) (logged c w) (on_disconnected-IsQuiet s w1))
        (logged c w)

module _ (fl : FloatOps) (out : Outside (FloatOps.F fl)) where
  open fl use {F}

  send_session-IsQuiet :
      (o : Option ℕ) (buf : Option SendBuffer) (w : World F)
      → IsQuiet w (send_session fl out o buf w)
  unfolding send_session
  send_session-IsQuiet none buf w = IsQuiet-refl w
  send_session-IsQuiet (some s) buf w = enqueue-IsQuiet out s buf w

  pub send-IsQuiet :
      (id : ℕ) (buf : Option SendBuffer) (w : World F) → IsQuiet w (send fl out id buf w)
  unfolding send
  send-IsQuiet id buf w = send_session-IsQuiet (w.objects id).session buf w

  pub send_each-IsQuiet :
      (ids : List ℕ) (buf : Option SendBuffer) (w : World F)
      → IsQuiet w (send_each fl out ids buf w)
  unfolding send_each
  send_each-IsQuiet [] buf w = IsQuiet-refl w
  send_each-IsQuiet (id ∷ ids) buf w =
      IsQuiet-trans w (send fl out id buf w) _ (send-IsQuiet id buf w)
        (send_each-IsQuiet ids buf (send fl out id buf w))
