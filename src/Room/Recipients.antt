-- ===== src/Room/Recipients.antt =====
-- Whom a message of the room reaches: `Broadcast` and `Send` of SimpleServer/GameRoom.cpp, although a
-- send may close a session, and the callback of SimpleServer/ServerMain.cpp then changes its player.
use simple_server.Prelude.{
  ℕ, ◌≡◌, refl, sym, ap₂, ◌∙◌, ◌≢◌, true, false, Option, none, some, List, [], ◌∷◌, ◌++◌, arith,
  ◌==◌, if_both,
}
use mathlib.Core.List.{append_assoc, append-nil}
use mathlib.Core.Option.{some-injective}
use simple_server.Keys.{has_key, others_of, IsUnique}
use simple_server.SendBuffer.{SendBuffer}
use simple_server.Float.{FloatOps}
use simple_server.World.{
  World, Outside, update_player, post_task, disconnect, on_disconnected, enqueue,
}
use simple_server.Room.{send_session, send, send_each, broadcast, broadcast_except}
use simple_server.Room.Quiet.{send-IsQuiet}
use simple_server.Room.Invariant.{IsRoom, IsQuiet-IsRoom}

pub has_key-others_of :
    (id k : ℕ) (ks : List ℕ) → has_key k ks ≡ false → has_key k (others_of id ks) ≡ false
unfolding has_key others_of
has_key-others_of id k [] h = refl
has_key-others_of id k (j ∷ ks) h = ground (arith, has_key-others_of id k ks)

pub IsUnique-others_of : (id : ℕ) (ks : List ℕ) → IsUnique ks → IsUnique (others_of id ks)
unfolding others_of
IsUnique-others_of id [] u = tt
IsUnique-others_of id (k ∷ ks) u =
    let rest = IsUnique-others_of id ks u.1 in
    if_both IsUnique (k == id) _ _ rest (has_key-others_of id k ks u.0, rest)

-- One call for a player with a session, and none for another.
abbrev pub call_of : Option ℕ → Option SendBuffer → List (ℕ × Option SendBuffer)
call_of none buf = []
call_of (some s) buf = (s, buf) ∷ []

module _ {F : Type 0} where
  -- The calls that bring a buffer to the sessions of these players.
  abbrev pub calls_to : List ℕ → Option SendBuffer → World F → List (ℕ × Option SendBuffer)
  calls_to [] buf w = []
  calls_to (k ∷ ks) buf w = call_of (w.objects k).session buf ++ calls_to ks buf w

  pub calls_to_same :
      (ids : List ℕ) (buf : Option SendBuffer) (v w : World F)
      → ((k : ℕ) → has_key k ids ≡ true → (v.objects k).session ≡ (w.objects k).session)
      → calls_to ids buf v ≡ calls_to ids buf w
  unfolding has_key
  calls_to_same [] buf v w h = refl
  calls_to_same (k ∷ ks) buf v w h =
      ap₂ (λ o l. call_of o buf ++ l) (h k (ground arith))
        (calls_to_same ks buf v w (λ j e. h j (ground arith)))

  disconnect_other :
      (o : Option ℕ) (id k : ℕ) (w : World F)
      → o ≡ some id
      → k ≢ id
      → ((disconnect o w).objects k).session ≡ (w.objects k).session
  unfolding disconnect update_player post_task
  disconnect_other none id k w e n = absurd (cc)
  disconnect_other (some j) id k w e n = ground (arith, some-injective j id e)

module _ (fl : FloatOps) (out : Outside (FloatOps.F fl)) where
  open fl use {F}

  disconnect-calls : (o : Option ℕ) (w : World F) → (disconnect o w).calls ≡ w.calls
  unfolding disconnect update_player post_task
  disconnect-calls none w = refl
  disconnect-calls (some id) w = refl

  send_session-calls :
      (o : Option ℕ) (buf : Option SendBuffer) (w : World F)
      → (send_session fl out o buf w).calls ≡ w.calls ++ call_of o buf
  unfolding send_session enqueue on_disconnected
  send_session-calls none buf w = sym (append-nil w.calls)
  send_session-calls (some s) buf w =
      let w1 = record w { calls = w.calls ++ ((s, buf) ∷ []) } in
      if_both (λ (v : World F). v.calls ≡ w.calls ++ ((s, buf) ∷ [])) (out.closes w.calls s) _ _
        (disconnect-calls (w1.session_player s) w1) refl

  send_session_other :
      (o : Option ℕ) (id k : ℕ) (buf : Option SendBuffer) (w : World F)
      → ((s : ℕ) → o ≡ some s → w.session_player s ≡ some id)
      → k ≢ id
      → ((send_session fl out o buf w).objects k).session ≡ (w.objects k).session
  unfolding send_session enqueue on_disconnected
  send_session_other none id k buf w h n = refl
  send_session_other (some s) id k buf w h n =
      let w1 = record w { calls = w.calls ++ ((s, buf) ∷ []) } in
      if_both (λ (v : World F). (v.objects k).session ≡ (w.objects k).session)
        (out.closes w.calls s) _ _ (disconnect_other (w1.session_player s) id k w1 (h s refl) n)
        refl

  pub send-calls :
      (id : ℕ) (buf : Option SendBuffer) (w : World F)
      → (send fl out id buf w).calls ≡ w.calls ++ call_of (w.objects id).session buf
  unfolding send
  send-calls id buf w = send_session-calls (w.objects id).session buf w

  -- The sessions of the other players are not touched by a send to one.
  pub send_other :
      (id k : ℕ) (buf : Option SendBuffer) (w : World F)
      → IsRoom fl out w
      → k ≢ id
      → ((send fl out id buf w).objects k).session ≡ (w.objects k).session
  unfolding send
  send_other id k buf w g n = send_session_other (w.objects id).session id k buf w (g.owned id) n

  send_each-calls :
      (ids : List ℕ) (buf : Option SendBuffer) (w : World F)
      → IsUnique ids
      → IsRoom fl out w
      → (send_each fl out ids buf w).calls ≡ w.calls ++ calls_to ids buf w
  unfolding send_each send
  send_each-calls [] buf w u g = sym (append-nil w.calls)
  send_each-calls (id ∷ ids) buf w u g =
      let v = send fl out id buf w in
      let o = (w.objects id).session in
      let same =
        calls_to_same ids buf v w
          (λ k h. send_session_other o id k buf w (g.owned id) (ground (arith, u.0))) in
      send_each-calls ids buf v u.1 (IsQuiet-IsRoom fl out w v (send-IsQuiet fl out id buf w) g)
      ∙ ap₂ (λ a b. a ++ b) (send_session-calls o buf w) same
      ∙ append_assoc w.calls (call_of o buf) (calls_to ids buf w)

  -- In a room that is in order, `Broadcast` calls `EnqueueSend` once for every player in the room that
  -- has a session, in the order of the room, with the one buffer, even if some of these calls close
  -- their sessions; and with an exception, for all of them but that player.
  pub broadcast-calls :
      (except : ℕ) (buf : Option SendBuffer) (w : World F)
      → IsRoom fl out w
      → ((broadcast fl out buf w).calls ≡ w.calls ++ calls_to w.players buf w)
        × ((broadcast_except fl out except buf w).calls
            ≡ w.calls ++ calls_to (others_of except w.players) buf w)
  unfolding broadcast broadcast_except
  broadcast-calls except buf w g = (
    send_each-calls w.players buf w g.unique g,
    send_each-calls (others_of except w.players) buf w
        (IsUnique-others_of except w.players g.unique) g,
  )
