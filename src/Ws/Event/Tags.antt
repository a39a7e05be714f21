-- ===== src/Ws/Event/Tags.antt =====
-- src/domain/ws/type/ws.event.ts: the field `type` of an event as the tag of a union.
use aideep_websocket.Common.{Text, codes, ◌≡◌, refl, sym, ap, ◌∙◌, Bool, true, false, if◌then◌else◌}
use aideep_websocket.Common.Strings.{text_eq}
use aideep_websocket.Common.Items.{has}
use aideep_websocket.Ws.Event.{
  BotState, requested, joined, left, failed, EventBody, node_move, node_create, node_delete,
  node_update, edge_create, edge_deleted, edge_update, meeting_bot, other, bot_type, type_of,
  echo_suppressed_types,
}

-- The members of the union `WsEvent`, and what is none of them.
pub data Member : Type 0 where
  node_moved node_created node_deleted node_updated : Member
  edge_created edge_removed edge_updated : Member
  bot : BotState → Member
  unknown : Member

abbrev pub member_of : EventBody → Member
member_of (node_move user node rest) = node_moved
member_of (node_create user rest) = node_created
member_of (node_delete user node) = node_deleted
member_of (node_update user node rest) = node_updated
member_of (edge_create user rest) = edge_created
member_of (edge_deleted user edge) = edge_removed
member_of (edge_update user edge rest) = edge_updated
member_of (meeting_bot state user rest) = bot state
member_of (other type user rest) = unknown

abbrev pub IsMember : EventBody → Type 0
IsMember (other type user rest) = ⊥
IsMember _ = Unit

-- The member that a tag names.
abbrev tagged : Text → Member
unfolding text_eq
tagged tag =
    if text_eq tag (codes "NODE_MOVE")
    then node_moved
    else if text_eq tag (codes "NODE_CREATE")
    then node_created
    else if text_eq tag (codes "NODE_DELETE")
    then node_deleted
    else if text_eq tag (codes "NODE_UPDATE")
    then node_updated
    else if text_eq tag (codes "EDGE_CREATE")
    then edge_created
    else if text_eq tag (codes "EDGE_DELETED")
    then edge_removed
    else if text_eq tag (codes "EDGE_UPDATE")
    then edge_updated
    else if text_eq tag (codes "MEETING_BOT_REQUESTED")
    then bot requested
    else if text_eq tag (codes "MEETING_BOT_JOINED")
    then bot joined
    else if text_eq tag (codes "MEETING_BOT_LEFT")
    then bot left
    else if text_eq tag (codes "MEETING_BOT_FAILED")
    then bot failed
    else unknown

tagged-type_of : (b : EventBody) → IsMember b → tagged (type_of b) ≡ member_of b
unfolding tagged type_of bot_type text_eq
tagged-type_of (node_move user node rest) h = refl
tagged-type_of (node_create user rest) h = refl
tagged-type_of (node_delete user node) h = refl
tagged-type_of (node_update user node rest) h = refl
tagged-type_of (edge_create user rest) h = refl
tagged-type_of (edge_deleted user edge) h = refl
tagged-type_of (edge_update user edge rest) h = refl
tagged-type_of (meeting_bot requested user rest) h = refl
tagged-type_of (meeting_bot joined user rest) h = refl
tagged-type_of (meeting_bot left user rest) h = refl
tagged-type_of (meeting_bot failed user rest) h = refl
tagged-type_of (other type user rest) h = elim h [ ]

-- The members that are about nodes and edges.
abbrev pub is_of_canvas : Member → Bool
is_of_canvas (bot state) = false
is_of_canvas unknown = false
is_of_canvas _ = true

has-type_of :
    (b : EventBody)
    → IsMember b
    → has (type_of b) echo_suppressed_types ≡ is_of_canvas (member_of b)
unfolding has echo_suppressed_types type_of bot_type text_eq
has-type_of (node_move user node rest) h = refl
has-type_of (node_create user rest) h = refl
has-type_of (node_delete user node) h = refl
has-type_of (node_update user node rest) h = refl
has-type_of (edge_create user rest) h = refl
has-type_of (edge_deleted user edge) h = refl
has-type_of (edge_update user edge rest) h = refl
has-type_of (meeting_bot requested user rest) h = refl
has-type_of (meeting_bot joined user rest) h = refl
has-type_of (meeting_bot left user rest) h = refl
has-type_of (meeting_bot failed user rest) h = refl
has-type_of (other type user rest) h = elim h [ ]

-- Take an event of a type that the server knows. Any other such event with the same value of the
-- field type is of the same member of the union of events, and the type is among those whose echo
-- to their sender is suppressed exactly if the event is about a node or an edge.
pub type_of-member_of :
    (b : EventBody)
    → IsMember b
    → ((c : EventBody) → IsMember c → type_of b ≡ type_of c → member_of b ≡ member_of c)
      × (has (type_of b) echo_suppressed_types ≡ is_of_canvas (member_of b))
type_of-member_of b h =
    (λ c k e. sym (tagged-type_of b h) ∙ ap tagged e ∙ tagged-type_of c k, has-type_of b h)
