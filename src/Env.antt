-- ===== src/Env.antt =====
-- What the server uses and does not implement: Redis, PostgreSQL through Prisma, Yjs, Lexical, the
-- y-protocols, base64 and JSON texts, SHA-256, random identifiers and the clock. Each is a record of
-- operations over an abstract state `W` of the outside world, an abstract Y.Doc `D` and an abstract
-- Lexical editor `E`; a theorem names the documented laws that it relies on.
pub mod Cache
pub mod Database
pub mod Documents
use aideep_websocket.Common.{Text, Bytes, ℕ, Result, ok, Io}
use Cache.{Redis}
use Database.{Prisma, Json, Content}
use Documents.{Crdt}

-- Buffer.toString('base64') and Buffer.from(text, 'base64').
pub record Base64 : Type 0 where
  pub encode : Bytes → Text
  pub decode : Text → Bytes

-- JSON.stringify and JSON.parse at one type of values; `parse` throws on a malformed text.
pub record JsonCodec (A : Type 0) : Type 0 where
  pub stringify : A → Text
  pub parse : Text → Result A

pub record Env (D E W : Type 0) : Type 0 where
  pub redis : Redis W
  pub prisma : Prisma W
  pub crdt : Crdt D E
  pub base64 : Base64
  -- Date.now(), in milliseconds.
  pub date_now : W → ℕ
  -- randomUUID()
  pub random_uuid : Io W Text
  -- JSON.stringify of a node's content, the input of the URL search.
  pub stringify_content : Content → Text
  -- editor.getEditorState().toJSON()
  pub editor_to_json : E → Json
  -- AWS_S3_BUCKET and AWS_REGION
  pub bucket : Text
  pub region : Text

-- new Date()
abbrev pub now : {D E W : Type 0} → Env D E W → Io W ℕ
now env w = (ok (env.date_now w), w)
