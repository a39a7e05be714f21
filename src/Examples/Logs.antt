-- ===== src/Examples/Logs.antt =====
-- Lines that the gateway logs in production.
use aideep_websocket.Common.{codes, ◌≡◌, refl, true, none, some, [], ◌∷◌}
use aideep_websocket.Js.{Value, string, buffer, object_of}
use aideep_websocket.Logs.Sockets.{Client, pick, byte_size, inbound_line}
use aideep_websocket.Logs.Sockets.Redacted.{inbound_line_production}
use aideep_websocket.Examples.Http.{js}
use aideep_websocket.Examples.Opened.{documents}

abbrev client : Client
client = record { id = codes "s"; user_id = some (codes "u"); workspace_id = none }

abbrev message : Value
message =
    object_of ((codes "nodeId", string (codes "n")) ∷ (codes "data", buffer (1 ∷ 2 ∷ [])) ∷ [])

abbrev other : Value
other = object_of ((codes "nodeId", string (codes "n")) ∷ (codes "data", buffer (3 ∷ 4 ∷ [])) ∷ [])

inbound_line_production_example :
    inbound_line js true client (codes "yjs:join") message []
    ≡ inbound_line js true client (codes "yjs:join") other []
unfolding documents pick byte_size
inbound_line_production_example =
    inbound_line_production js client (codes "yjs:join") message other [] refl refl refl
