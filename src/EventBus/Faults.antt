-- ===== src/EventBus/Faults.antt =====
-- src/domain/event-bus/service/event-bus.subscriber.ts: messages that cannot be read, and failures.
use aideep_websocket.Common.{Text, ◌≡◌, ◌≢◌, refl, Result, ok, err, Fault, arith}
use aideep_websocket.App.{App}
use aideep_websocket.Ws.State.{Gateway}
use aideep_websocket.EventBus.Contract.{Envelope, unknown, contract_version}
use aideep_websocket.EventBus.Subscriber.{
  dispatch, handle_envelope, parse_and_handle, handle_message,
}

-- A message that this version of the contract does not read.
pub data IsForeign : Result Envelope → Type 0 where
  malformed : (e : Fault) → IsForeign (err e)
  other_version : (v : Envelope) → v.v ≢ contract_version → IsForeign (ok v)
  other_kind : (v : Envelope) (kind : Text) → v.payload ≡ unknown kind → IsForeign (ok v)

module _ {D E W : Type 0} (app : App D E W) where
  -- The handler of the event bus never throws, whatever the message, the state of the server and
  -- the failures of what it calls.
  pub handle_message-ok :
      (message : Text) (g : Gateway D W) → (handle_message app message g).0 ≡ ok tt
  unfolding handle_message
  handle_message-ok message g = ground arith

  foreign_envelope :
      (parsed : Result Envelope) (message : Text) (g : Gateway D W)
      → app.envelopes.parse message ≡ parsed
      → IsForeign parsed
      → handle_message app message g ≡ (ok tt, g)
  unfolding handle_message parse_and_handle handle_envelope dispatch
  foreign_envelope _ message g e (malformed fault) = ground arith
  foreign_envelope _ message g e (other_version v version) = ground arith
  foreign_envelope _ message g e (other_kind v kind payload) = ground arith

  -- A message of the event bus that is malformed, is of another version of the contract or has a
  -- kind that this version does not know is answered without an error and changes nothing at all.
  pub handle_message-IsForeign :
      (message : Text) (g : Gateway D W)
      → IsForeign (app.envelopes.parse message)
      → handle_message app message g ≡ (ok tt, g)
  handle_message-IsForeign message g foreign =
      foreign_envelope (app.envelopes.parse message) message g refl foreign
