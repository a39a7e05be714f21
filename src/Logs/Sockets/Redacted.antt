-- ===== src/Logs/Sockets/Redacted.antt =====
-- What the log of the gateway does not tell.
use aideep_websocket.Common.{
  Text, codes, ◌≡◌, refl, ap, inl, inr, Bool, true, false, ◌||◌, arith, Bool-cases, if-keeps,
}
use aideep_websocket.Common.Items.{has}
use aideep_websocket.Js.{Value, Entries, number, buffer, array, object, end, entry, Js, cons}
use aideep_websocket.Logs.Format.{Payload}
use aideep_websocket.Logs.Sockets.{
  Client, Lines, high_frequency_events, is_binary_like, pick, byte_size, placeholder, redact_field,
  redact_fields, redact_binary, inbound_payload, inbound_line, broadcast_line,
}

-- Whether some field is binary.
abbrev pub some_binary : Entries → Bool
unfolding is_binary_like
some_binary end = false
some_binary (entry key value rest) = is_binary_like value || some_binary rest

-- Whether a value, or a field of it, is binary.
unfoldable pub holds_binary : Value → Bool
unfolding some_binary is_binary_like
holds_binary (object fields) = some_binary fields
holds_binary value = is_binary_like value

module _ (js : Js) where
  redact_field-is_binary_like : (v : Value) → is_binary_like (redact_field js v) ≡ false
  unfolding redact_field is_binary_like placeholder
  redact_field-is_binary_like v = elim (Bool-cases (is_binary_like v)) [
    | inl b ↦ rw b refl
    | inr b ↦ rw b b
  ]

  redact_fields-some_binary : (o : Entries) → some_binary (redact_fields js o) ≡ false
  unfolding redact_fields some_binary
  redact_fields-some_binary end = refl
  redact_fields-some_binary (entry key value rest) =
      rw (redact_field-is_binary_like value, redact_fields-some_binary rest) refl

  -- What is logged in place of a payload is not binary, and no field of it is.
  pub redact_binary-holds_binary : (v : Value) → holds_binary (redact_binary js v) ≡ false
  unfolding redact_binary holds_binary redact_field is_binary_like placeholder
  redact_binary-holds_binary (object o) = redact_fields-some_binary o
  redact_binary-holds_binary (array (cons (number n) rest)) = refl
  redact_binary-holds_binary v = refl

  redact_fields_same : (o : Entries) → some_binary o ≡ false → redact_fields js o ≡ o
  unfolding redact_fields redact_field
  redact_fields_same end h = refl
  redact_fields_same (entry key value rest) h = elim (Bool-cases (is_binary_like value)) [
    | inl b ↦ absurd (ground arith)
    | inr b ↦ rw (b, redact_fields_same rest (ground arith)) refl
  ]

  redact_binary_same : (v : Value) → holds_binary v ≡ false → redact_binary js v ≡ v
  unfolding redact_binary holds_binary redact_field is_binary_like
  redact_binary_same (object o) h = ap object (redact_fields_same o h)
  redact_binary_same (array (cons (number n) rest)) h = absurd (ground arith)
  redact_binary_same (buffer b) h = absurd (ground arith)
  redact_binary_same v h = refl

  -- In production the log of an incoming event depends on its payload only through the workspace
  -- and the node that it names and its size: for two payloads that agree in these, the same lines
  -- are logged.
  pub inbound_line_production :
      (client : Client) (event : Text) (p q : Value) (lines : Lines)
      → pick p (codes "workspaceId") ≡ pick q (codes "workspaceId")
      → pick p (codes "nodeId") ≡ pick q (codes "nodeId")
      → byte_size js p ≡ byte_size js q
      → inbound_line js true client event p lines ≡ inbound_line js true client event q lines
  unfolding inbound_line inbound_payload
  inbound_line_production client event p q lines w n b = rw (w, n, b) refl

  -- x
  pub inbound_line-high_frequency_events :
      (client : Client) (event : Text) (payload : Value) (meta : Payload) (lines : Lines)
      → has event high_frequency_events ≡ true
      → (inbound_line js true client event payload lines ≡ lines)
        × (broadcast_line js true event meta lines ≡ lines)
  unfolding inbound_line broadcast_line
  inbound_line-high_frequency_events client event payload meta lines h =
      (rw h (if-keeps (λ (l : Lines). l ≡ lines) _ lines lines refl refl), rw h refl)
