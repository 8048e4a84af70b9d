-- ===== src/Client/Bot.antt =====
-- A bot of DummyClient as a client of ServerCore/NetService.cpp: what it starts, and what it leaves.
use simple_server.Prelude.{ℕ, refl}
use simple_server.Session.{Session, enqueue_packet}
use simple_server.Session.Lifetime.{
  enqueue_send-IsCounted, enqueue_send-IsQueued, enqueue_send-pending,
}
use simple_server.Session.Handling.{IsOrderly}
use simple_server.Service.{
  Net, Service, Os, session_env, call_connected, notify_connected, call_disconnected,
  notify_disconnected, remove_session,
}
use simple_server.Service.Tracks.{Tracks, Tracks-refl, IsTame, enqueue_send-Tracks}
use simple_server.Service.Reach.{Reach}
use simple_server.Client.{Protobuf, connecting_callbacks, say_hello, bot_callbacks, bot_env}

module _ (pb : Protobuf) {W : Type 0} (os : Os W) where
  connecting-IsTame : IsTame os (connecting_callbacks pb os)
  unfolding notify_connected call_connected notify_disconnected call_disconnected remove_session
  connecting-IsTame = record {
    packet_tracks = λ id p n s. Tracks-refl id n s;
    connected_tracks = λ id n s. Tracks-refl id n s;
    disconnected_keeps = λ id n. refl;
  }

  say_hello-Tracks :
      (bot id : ℕ) (n : Net W) (s : Session)
      → let r = say_hello pb os bot id n s in Tracks id n s r.0 r.1
  unfolding say_hello enqueue_packet
  say_hello-Tracks bot id n s =
      enqueue_send-Tracks os (connecting_callbacks pb os) connecting-IsTame id _ n s

  -- A bot touches the set of sessions only by closing the session itself.
  pub bot-IsTame : (bot : ℕ) → IsTame os (bot_callbacks pb os bot)
  unfolding notify_connected call_connected notify_disconnected call_disconnected remove_session
  bot-IsTame bot = record {
    packet_tracks = λ id p n s. Tracks-refl id n s;
    connected_tracks = λ id n s. say_hello-Tracks bot id n s;
    disconnected_keeps = λ id n. refl;
  }

  -- Its handler and its greeting leave the session in order.
  pub bot-IsOrderly : (bot id : ℕ) → IsOrderly (bot_env pb os bot id)
  unfolding notify_connected call_connected say_hello enqueue_packet
  bot-IsOrderly bot id =
      let env = session_env os (connecting_callbacks pb os) id in
      record {
        handle_counted = λ held p n s v. v;
        handle_queued = λ p n s v. v;
        handle_pending = λ p n s. refl;
        connect_counted = λ held n s v. enqueue_send-IsCounted env held _ n s v;
        connect_queued = λ n s v. enqueue_send-IsQueued env _ n s v;
        connect_pending = λ n s. enqueue_send-pending env _ n s;
      }
