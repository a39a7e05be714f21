-- ===== src/Logs/Sockets.antt =====
-- src/domain/ws/service/ws-log.service.ts: the log of the gateway.
pub mod Redacted
use aideep_websocket.Common.{
  ℕ, Text, codes, Bool, true, false, Option, none, some, List, [], ◌∷◌, ◌++◌, ◌&&◌, suc,
  if◌then◌else◌,
}
use aideep_websocket.Common.Lists.{length}
use aideep_websocket.Common.Items.{has}
use aideep_websocket.Js.{
  Value, Values, Entries, undefined, null, boolean, number, string, buffer, array, object, nil,
  cons, end, entry, Js, property, or_else, maybe_string, string_or_null,
}
use aideep_websocket.Js.Decimal.{decimal}
use aideep_websocket.Logs.Format.{
  Payload, WsLogKind, connect, rejected, disconnect, inbound, broadcast, format_ws_log,
}

-- client.id and client.data
pub record Client : Type 0 where
  pub id : Text
  pub user_id : Option Text
  pub workspace_id : Option Text

pub data Level : Type 0 where
  log warn verbose : Level

-- The lines that were given to the logger, the last one first.
abbrev pub Lines : Type 0
Lines = List (Level × Text)

abbrev pub high_frequency_events : List Text
high_frequency_events =
    codes "node_position_live"
    ∷ codes "cursor_move"
    ∷ codes "yjs:sync"
    ∷ codes "yjs:awareness"
    ∷ codes "yjs:ws:awareness"
    ∷ []

abbrev pub silent_inbound_events : List Text
silent_inbound_events = codes "cursor_move" ∷ []

unfoldable pub is_binary_like : Value → Bool
is_binary_like (buffer bytes) = true
is_binary_like (array (cons (number n) rest)) = true
is_binary_like _ = false

abbrev count_values : Values → ℕ
count_values nil = 0
count_values (cons value rest) = suc (count_values rest)

abbrev pub text_or_empty : Option Text → Text
text_or_empty none = []
text_or_empty (some text) = text

-- `${byteSize(value)}`, and the value itself in a payload
abbrev pub number_or_undefined : Option ℕ → Value
number_or_undefined none = undefined
number_or_undefined (some n) = number n

abbrev pub shown_size : Option ℕ → Text
shown_size none = codes "undefined"
shown_size (some n) = decimal n

-- The string under a key of a payload.
unfoldable pub pick : Value → Text → Option Text
unfolding property
pick (object fields) key = elim (property key fields) [ string text ↦ some text | _ ↦ none ]
pick _ key = none

module _ (js : Js) where
  unfoldable pub byte_size : Value → Option ℕ
  byte_size undefined = none
  byte_size null = none
  byte_size (buffer bytes) = some (length bytes)
  byte_size (array values) = some (count_values values)
  byte_size value = some (js.byte_length (text_or_empty (js.stringify value)))

  unfoldable pub placeholder : Value → Value
  unfolding byte_size
  placeholder value = string (codes "<binary " ++ shown_size (byte_size value) ++ codes "B>")

  unfoldable pub redact_field : Value → Value
  unfolding is_binary_like placeholder
  redact_field value = if is_binary_like value then placeholder value else value

  unfoldable pub redact_fields : Entries → Entries
  unfolding redact_field
  redact_fields end = end
  redact_fields (entry key value rest) = entry key (redact_field value) (redact_fields rest)

  unfoldable pub redact_binary : Value → Value
  unfolding redact_field redact_fields
  redact_binary (object fields) = object (redact_fields fields)
  redact_binary payload = redact_field payload

  module _ (production : Bool) where
    abbrev pub user_field : Client → Text × Value
    user_field client = (codes "userId", string_or_null client.user_id)

    abbrev pub socket_field : Client → Text × Value
    socket_field client = (codes "socketId", string client.id)

    abbrev pub event_field : Text → Text × Value
    event_field event = (codes "event", string event)

    unfoldable pub connect_line : Client → Lines → Lines
    unfolding format_ws_log
    connect_line client lines =
        (
          log,
          format_ws_log js production connect
              (event_field (codes "connection") ∷ socket_field client ∷ user_field client ∷ []),
        )
        ∷ lines

    unfoldable pub rejected_line : Client → Text → Lines → Lines
    unfolding format_ws_log
    rejected_line client reason lines =
        (
          warn,
          format_ws_log js production rejected (
              event_field (codes "connection")
              ∷ socket_field client
              ∷ (codes "reason", string reason)
              ∷ []),
        )
        ∷ lines

    unfoldable pub disconnect_line : Client → Lines → Lines
    unfolding format_ws_log
    disconnect_line client lines =
        (
          log,
          format_ws_log js production disconnect (
              event_field (codes "disconnect")
              ∷ socket_field client
              ∷ user_field client
              ∷ (codes "workspaceId", string_or_null client.workspace_id)
              ∷ []),
        )
        ∷ lines

    unfoldable pub write : Bool → WsLogKind → Payload → Lines → Lines
    unfolding format_ws_log
    write high_frequency kind payload lines =
        (if high_frequency then verbose else log, format_ws_log js production kind payload) ∷ lines

    -- pick(payload, 'workspaceId') ?? client.data?.workspaceId
    abbrev workspace_of : Client → Option Text → Value
    workspace_of client none = maybe_string client.workspace_id
    workspace_of client (some workspace_id) = string workspace_id

    unfoldable pub inbound_payload : Client → Text → Value → Payload
    unfolding pick byte_size redact_binary
    inbound_payload client event payload =
        event_field event
        ∷ socket_field client
        ∷ user_field client
        ∷ (codes "workspaceId", workspace_of client (pick payload (codes "workspaceId")))
        ∷ (codes "nodeId", string_or_null (pick payload (codes "nodeId")))
        ∷ (codes "bytes", number_or_undefined (byte_size payload))
        ∷ (codes "payload", if production then undefined else redact_binary payload)
        ∷ []

    unfoldable pub inbound_line : Client → Text → Value → Lines → Lines
    unfolding write inbound_payload has
    inbound_line client event payload lines =
        let high_frequency = has event high_frequency_events in
        if has event silent_inbound_events
        then lines
        else if high_frequency && production
        then lines
        else write high_frequency inbound (inbound_payload client event payload) lines

    -- `meta` is the object that the gateway gives.
    unfoldable pub broadcast_line : Text → Payload → Lines → Lines
    unfolding write has
    broadcast_line event meta lines =
        let high_frequency = has event high_frequency_events in
        if high_frequency && production
        then lines
        else write high_frequency broadcast
            (meta ++ event_field event ∷ (codes "socketId", string (codes "server")) ∷ []) lines
