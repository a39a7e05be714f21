-- ===== src/Logs/Format.antt =====
-- src/global/common/logging/log-format.ts: the text of a log line. A payload is the object that the
-- caller builds, as its fields in order; `production` is isProduction().
use aideep_websocket.Common.{Text, codes, Bool, true, false, List, [], ◌∷◌, ◌++◌, if◌then◌else◌}
use aideep_websocket.Js.{
  Value, undefined, string, entries, object_of, Js, property, truthy, json_text, string_of,
  join_texts,
}

abbrev pub Payload : Type 0
Payload = List (Text × Value)

-- payload[key]
abbrev pub field : Text → Payload → Value
unfolding property
field key payload = property key (entries payload)

pub data HttpLogKind : Type 0 where
  request response : HttpLogKind

pub data WsLogKind : Type 0 where
  connect rejected disconnect inbound broadcast : WsLogKind

pub data PrismaLogKind : Type 0 where
  query slow failed : PrismaLogKind

abbrev http_kind_text : HttpLogKind → Text
http_kind_text request = codes "request"
http_kind_text response = codes "response"

abbrev pub ws_kind_text : WsLogKind → Text
ws_kind_text connect = codes "connect"
ws_kind_text rejected = codes "rejected"
ws_kind_text disconnect = codes "disconnect"
ws_kind_text inbound = codes "inbound"
ws_kind_text broadcast = codes "broadcast"

abbrev prisma_kind_text : PrismaLogKind → Text
prisma_kind_text query = codes "query"
prisma_kind_text slow = codes "slow"
prisma_kind_text failed = codes "error"

abbrev is_defined : Value → Bool
is_defined undefined = false
is_defined value = true

module _ (js : Js) (production : Bool) where
  -- `${payload.key}`
  abbrev shown : Text → Payload → Text
  shown key payload = string_of js (field key payload)

  unfoldable pub format_http_log : HttpLogKind → Payload → Text
  unfolding string_of
  format_http_log kind payload =
      if production
      then json_text js (object_of ((codes "type", string (http_kind_text kind)) ∷ payload))
      else elim kind [
        | request ↦
            codes "[Request] userId : "
            ++ shown (codes "userId") payload
            ++ codes " "
            ++ shown (codes "method") payload
            ++ codes " "
            ++ shown (codes "url") payload
        | response ↦
            codes "[Response] "
            ++ shown (codes "method") payload
            ++ codes " "
            ++ shown (codes "url") payload
            ++ codes " "
            ++ shown (codes "statusCode") payload
            ++ codes " - "
            ++ shown (codes "ms") payload
            ++ codes "ms"
      ]

  -- if (payload.key) parts.push(before + payload.key + after)
  abbrev part_if : Bool → Text → Text → Text → Payload → List Text
  part_if true before after key payload = (before ++ shown key payload ++ after) ∷ []
  part_if false before after key payload = []

  unfoldable pub if_truthy : Text → Text → Text → Payload → List Text
  unfolding truthy
  if_truthy before after key payload = part_if (truthy (field key payload)) before after key payload

  abbrev if_defined : Text → Text → Text → Payload → List Text
  if_defined before after key payload =
      part_if (is_defined (field key payload)) before after key payload

  abbrev json_if_defined : Value → List Text
  json_if_defined undefined = []
  json_if_defined value = json_text js value ∷ []

  unfoldable pub ws_parts : WsLogKind → Payload → List Text
  unfolding string_of if_truthy
  ws_parts kind payload =
      (codes "[WS " ++ ws_kind_text kind ++ codes "]")
      ∷ shown (codes "event") payload
      ∷ (codes "socket=" ++ shown (codes "socketId") payload)
      ∷ (if_truthy (codes "user=") [] (codes "userId") payload
          ++ if_truthy (codes "ws=") [] (codes "workspaceId") payload
          ++ if_truthy (codes "node=") [] (codes "nodeId") payload
          ++ if_defined [] (codes "B") (codes "bytes") payload
          ++ if_defined (codes "to=") [] (codes "recipients") payload
          ++ if_truthy (codes "(") (codes ")") (codes "reason") payload
          ++ json_if_defined (field (codes "payload") payload))

  unfoldable pub format_ws_log : WsLogKind → Payload → Text
  unfolding ws_parts
  format_ws_log kind payload =
      if production
      then json_text js
          (object_of ((codes "type", string (codes "ws." ++ ws_kind_text kind)) ∷ payload))
      else join_texts (codes " ") (ws_parts kind payload)

  -- `payload.ms.toFixed(2)`
  module _ (to_fixed : Value → Text) where
    unfoldable pub format_prisma_log : PrismaLogKind → Payload → Text
    unfolding string_of
    format_prisma_log kind payload =
        if production
        then json_text js (
            object_of ((codes "type", string (codes "prisma." ++ prisma_kind_text kind)) ∷ payload))
        else let meta = json_text js (
            object_of (
              (codes "requestId", field (codes "requestId") payload)
              ∷ (codes "userId", field (codes "userId") payload)
              ∷ (codes "inTransaction", field (codes "inTransaction") payload)
              ∷ [])) in
          let ms = to_fixed (field (codes "ms") payload) in
          elim kind [
            | query ↦
                codes "["
                ++ shown (codes "label") payload
                ++ codes "] "
                ++ ms
                ++ codes "ms "
                ++ meta
            | slow ↦
                codes "Slow query: "
                ++ shown (codes "label") payload
                ++ codes " - "
                ++ ms
                ++ codes "ms "
                ++ meta
            | failed ↦
                codes "Query failed: "
                ++ shown (codes "label") payload
                ++ codes " - "
                ++ ms
                ++ codes "ms code="
                ++ shown (codes "code") payload
                ++ codes " "
                ++ meta
                ++ codes " :: "
                ++ shown (codes "message") payload
          ]
