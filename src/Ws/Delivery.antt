-- ===== src/Ws/Delivery.antt =====
-- Whom the messages of src/domain/ws/controller/ws.gateway.ts reach, by the documentation of
-- socket.io.
pub mod Joined
use aideep_websocket.Common.{
  Text, ◌≡◌, refl, sym, Bool, true, false, ◌&&◌, ◌||◌, Bool-cases, inl, inr, some, Option-cases,
  List, [], ◌∷◌, ◌++◌, text_eq, text_eq_iff, arith, if◌then◌else◌,
}
use aideep_websocket.Common.Dict
use aideep_websocket.App.{App}
use aideep_websocket.Ws.Event.{
  Command, Message, join, leave, disconnect, to_local, user_room, yjs_room,
}
use aideep_websocket.Ws.State.{Gateway, SocketData, client_data, set_data, send}
use aideep_websocket.Ws.Gateway.{
  accept, count_connection, uncount_connection, leave_docs, remove_from_docs,
}
use aideep_websocket.Ws.YjsHandlers.{handle_yjs_leave, untrack_room, track_room}
use aideep_websocket.Ws.Stable.{IsStable, is_leave}

abbrev pub is_disconnect : Text → Command → Bool
is_disconnect a (disconnect b) = text_eq b a
is_disconnect a _ = false

abbrev pub is_exit : Text → Text → Command → Bool
is_exit a r (leave b q) = text_eq b a && text_eq q r
is_exit a r (disconnect b) = text_eq b a
is_exit a r _ = false

unfoldable pub was_disconnected : Text → List Command → Bool
was_disconnected a [] = false
was_disconnected a (c ∷ sent) = is_disconnect a c || was_disconnected a sent

-- What the documentation says of the rooms that commands put a socket in, and of the messages that
-- reach it. Identifiers of sockets are not used again after a disconnection.
pub record IsSocketIo (in_room : Text → Text → List Command → Bool)
    (inbox : Text → List Command → List Message) : Type 0 where
  pub joins : (a r : Text) (sent : List Command) → in_room a r (sent ++ join a r ∷ []) ≡ true
  pub stays :
      (a r : Text) (c : Command) (sent : List Command)
      → is_exit a r c ≡ false
      → in_room a r sent ≡ true
      → in_room a r (sent ++ c ∷ []) ≡ true
  pub excepts :
      (a r x : Text) (m : Message) (sent : List Command)
      → in_room a x sent ≡ true
      → inbox a (sent ++ to_local r (some x) m ∷ []) ≡ inbox a sent
  pub gone :
      (a : Text) (c : Command) (sent : List Command)
      → was_disconnected a sent ≡ true
      → inbox a (sent ++ c ∷ []) ≡ inbox a sent

was_disconnected-append :
    (a : Text) (sent : List Command) (c : Command)
    → was_disconnected a (sent ++ c ∷ []) ≡ (was_disconnected a sent || is_disconnect a c)
unfolding was_disconnected
was_disconnected-append a [] c = ground arith
was_disconnected-append a (x ∷ sent) c = ground (arith, was_disconnected-append a sent c)

pub is_exit-others :
    (a r : Text) (c : Command)
    → is_leave c ≡ false
    → is_disconnect a c ≡ false
    → is_exit a r c ≡ false
is_exit-others a r (leave b q) other here = ground arith
is_exit-others a r (disconnect b) other here = here
is_exit-others a r _ other here = refl

pub is_exit-yjs_room : (a b n u : Text) → is_exit a (user_room u) (leave b (yjs_room n)) ≡ false
unfolding yjs_room user_room
is_exit-yjs_room a b n u = ground (arith, text_eq_iff (yjs_room n) (user_room u))

module _ {in_room : Text → Text → List Command → Bool} {inbox : Text → List Command → List Message}
    (io : IsSocketIo in_room inbox) where
  pub in_room-append :
      (a u : Text) (c : Command) (sent : List Command)
      → (is_disconnect a c ≡ false → is_exit a (user_room u) c ≡ false)
      → (was_disconnected a sent ≡ false → in_room a (user_room u) sent ≡ true)
      → was_disconnected a (sent ++ c ∷ []) ≡ false
      → in_room a (user_room u) (sent ++ c ∷ []) ≡ true
  in_room-append a u c sent stays before here =
      let e = was_disconnected-append a sent c in
      io.stays a (user_room u) c sent (stays (ground arith)) (before (ground arith))
