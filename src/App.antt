-- ===== src/App.antt =====
-- The environment together with the texts of the server's own values, the verification of tokens
-- and the hash of a request.
use aideep_websocket.Common.{Text, Option, Result}
use aideep_websocket.Env.{Env, JsonCodec}
use aideep_websocket.Yjs.Managed.{EmbedJob}
use aideep_websocket.Ws.Event.{PresenceMember}
use aideep_websocket.NodeContent.Operation.{OperationBody, Claim}
use aideep_websocket.EventBus.Contract.{Envelope}

pub record App (D E W : Type 0) : Type 0 where
  pub env : Env D E W
  pub jobs : JsonCodec EmbedJob
  pub members : JsonCodec PresenceMember
  pub claims : JsonCodec Claim
  pub envelopes : JsonCodec Envelope
  -- jwtService.verify(token), which throws on a bad token: its `user_id`, if that is a text
  pub verify : Text → Result (Option Text)
  -- createHash('sha256').update(JSON.stringify(body)).digest('hex')
  pub request_hash : OperationBody → Text
