-- ===== src/Ws/State.antt =====
-- The state of `WsGateway` in src/domain/ws/controller/ws.gateway.ts with what it owns: the document
-- manager, `client.data` of each socket, and the commands sent to socket.io, in their order.
use aideep_websocket.Common.{ℕ, Text, Bool, Option, none, some, List, [], ◌∷◌, ◌++◌, ok, Io}
use aideep_websocket.Common.Dict
use aideep_websocket.Common.Dict.{Dict}
use aideep_websocket.Env.Database.{Membership}
use aideep_websocket.Ws.Event.{Command}
use aideep_websocket.Yjs.Managed.{Manager}

-- client.data; in the cache `none` is a user that is no member.
pub record SocketData : Type 0 where
  pub user_id : Option Text
  pub workspace_id : Option Text
  pub membership_cache : Dict (Option Membership)
  pub yjs_read_only : Dict Bool

pub record Gateway (D W : Type 0) : Type 0 where
  pub manager : Manager D W
  pub sockets : Dict SocketData
  pub yjs_rooms : Dict (List Text)
  pub counted_connections : List Text
  -- the gauge ws_connections_active
  pub active : ℕ
  pub sent : List Command

-- The reply to a message of a client.
pub data AckError : Type 0 where
  login_required not_a_member join_workspace_first : AckError

pub data Ack : Type 0 where
  joined : Ack
  yjs_joined : Bool → Ack
  refused : AckError → Ack

abbrev pub blank : SocketData
blank = record { user_id = none; workspace_id = none; membership_cache = []; yjs_read_only = [] }

abbrev pub data_or_blank : Option SocketData → SocketData
data_or_blank none = blank
data_or_blank (some d) = d

module _ {D W : Type 0} where
  unfoldable pub client_data : Text → Gateway D W → SocketData
  client_data socket g = data_or_blank (Dict.get socket g.sockets)

  unfoldable pub set_data : Text → SocketData → Gateway D W → Gateway D W
  set_data socket d g = record g { sockets = Dict.insert socket d g.sockets }

  unfoldable pub send : Command → Gateway D W → Gateway D W
  send command g = record g { sent = g.sent ++ command ∷ [] }

  abbrev pub update : (Gateway D W → Gateway D W) → Io (Gateway D W) (Unit {0})
  update f g = (ok tt, f g)

  abbrev pub on_manager : {A : Type 0} → Io (Manager D W) A → Io (Gateway D W) A
  on_manager m g = let (r, s) = m g.manager in (r, record g { manager = s })

  abbrev pub on_outside : {A : Type 0} → Io W A → Io (Gateway D W) A
  on_outside m g =
      let (r, w) = m g.manager.world in (r, record g { manager = record (g.manager) { world = w } })

  -- The gateway after something outside of it has moved the world.
  abbrev pub in_world : W → Gateway D W → Gateway D W
  in_world w g = record g { manager = record (g.manager) { world = w } }
