-- ===== src/Examples/Deliveries.antt =====
-- Two sockets of two users in one workspace, a socket.io that keeps its documentation, and an event
-- of the first user.
use aideep_websocket.Common.{
  Text, codes, ◌≡◌, refl, sym, ap, ◌∙◌, Bool, true, false, not, ◌&&◌, ◌||◌, some, none, List, [],
  ◌∷◌, ◌++◌, if◌then◌else◌, text_eq, text_eq_refl, arith,
}
use mathlib.Core.List.{append_assoc, append-nil}
use aideep_websocket.Env.Database.{editor, str}
use aideep_websocket.Ws.Event.{
  Command, Message, WsEvent, node_update, workspace_event, join, to_socket, to_others, to_room,
  to_local, user_room,
}
use aideep_websocket.Ws.State.{Gateway}
use aideep_websocket.Ws.Gateway.{Handshake, JoinWorkspace, broadcast}
use aideep_websocket.Ws.Delivery.{IsSocketIo, is_exit, was_disconnected}
use aideep_websocket.Server.{Input, connects, join_workspace, run, start}
use aideep_websocket.Server.Echo.{inbox-broadcast}
use aideep_websocket.Examples.World.{World, app, node, workspace}
use aideep_websocket.Examples.Opened.{server}

-- Whether a socket is in a room after one more command.
abbrev after : Text → Text → Bool → Command → Bool
after a r b (join x q) = b || (text_eq x a && text_eq q r)
after a r b c = b && not (is_exit a r c)

unfoldable in_room_from : Text → Text → Bool → List Command → Bool
in_room_from a r b [] = b
in_room_from a r b (c ∷ sent) = in_room_from a r (after a r b c) sent

abbrev in_room : Text → Text → List Command → Bool
in_room a r sent = in_room_from a r false sent

in_room-append :
    (a r : Text) (b : Bool) (sent : List Command) (c : Command)
    → in_room_from a r b (sent ++ c ∷ []) ≡ after a r (in_room_from a r b sent) c
unfolding in_room_from
in_room-append a r b [] c = refl
in_room-append a r b (x ∷ sent) c = in_room-append a r (after a r b x) sent c

abbrev message_if : Bool → Message → List Message
message_if b m = if b then m ∷ [] else []

-- The message of a command, if it reaches a socket.
unfoldable received : Text → List Command → Command → List Message
received a sent (to_socket b m) = message_if (text_eq b a) m
received a sent (to_others b r m) = message_if (in_room a r sent && not (text_eq b a)) m
received a sent (to_room r m) = message_if (in_room a r sent) m
received a sent (to_local r none m) = message_if (in_room a r sent) m
received a sent (to_local r (some x) m) = message_if (in_room a r sent && not (in_room a x sent)) m
received a sent _ = []

abbrev received_here : Text → List Command → Command → List Message
received_here a sent c = if was_disconnected a sent then [] else received a sent c

unfoldable inbox_from : Text → List Command → List Command → List Message
inbox_from a sent [] = []
inbox_from a sent (c ∷ rest) = received_here a sent c ++ inbox_from a (sent ++ c ∷ []) rest

abbrev inbox : Text → List Command → List Message
inbox a sent = inbox_from a [] sent

-- A command that does not reach a socket leaves its inbox alone.
inbox-append :
    (a : Text) (before sent : List Command) (c : Command)
    → received_here a (before ++ sent) c ≡ []
    → inbox_from a before (sent ++ c ∷ []) ≡ inbox_from a before sent
unfolding inbox_from
inbox-append a before [] c missed =
    append-nil (received_here a before c)
    ∙ ap (λ all. received_here a all c) (sym (append-nil before))
    ∙ missed
inbox-append a before (x ∷ sent) c missed =
    ap (λ rest. received_here a before x ++ rest)
      (inbox-append a (before ++ x ∷ []) sent c
        (ap (λ all. received_here a all c) (append_assoc before (x ∷ []) sent) ∙ missed))

after-stays :
    (a r : Text) (b : Bool) (c : Command) → b ≡ true → is_exit a r c ≡ false → after a r b c ≡ true
after-stays a r b (join x q) there stays = ground arith
after-stays a r b _ there stays = ground arith

received-excepts :
    (a r x : Text) (m : Message) (sent : List Command)
    → in_room a x sent ≡ true
    → received_here a sent (to_local r (some x) m) ≡ []
unfolding received
received-excepts a r x m sent there = ground arith

documented : IsSocketIo in_room inbox
documented = record {
  joins = λ a r sent.
      ground (arith, in_room-append a r false sent (join a r), text_eq_refl a, text_eq_refl r);
  stays =
      λ a r c sent stays there. in_room-append a r false sent c ∙ after-stays a r _ c there stays;
  excepts = λ a r x m sent there. inbox-append a [] sent _ (received-excepts a r x m sent there);
  gone = λ a c sent left. inbox-append a [] sent c (rw left refl);
}

abbrev first : Text
first = codes "s"

abbrev second : Text
second = codes "t"

abbrev token : Text → Handshake
token name = record { auth_token = some name; query_token = none }

abbrev entry : Text → JoinWorkspace
entry name = record {
  workspace_id = workspace;
  user_name = name;
  color = codes "c";
  profile = none;
}

abbrev history : List Input
history =
    connects first (token (codes "u"))
    ∷ connects second (token (codes "v"))
    ∷ join_workspace first (entry (codes "u"))
    ∷ join_workspace second (entry (codes "v"))
    ∷ []

abbrev both : Gateway Text World
both = run (app editor) history (start [])

abbrev event : WsEvent
event = record { workspace_id = workspace; body = node_update (codes "u") node (str (codes "x")) }

abbrev told : Gateway Text World
told = (broadcast (app editor) event both).1

second_told : inbox second told.sent ≡ inbox second both.sent ++ workspace_event event ∷ []
unfolding server in_room_from received inbox_from was_disconnected user_room
second_told = refl

inbox-broadcast_example : inbox first told.sent ≡ inbox first both.sent
unfolding server
inbox-broadcast_example =
    inbox-broadcast documented (app editor) history [] event first (codes "u") refl refl refl
