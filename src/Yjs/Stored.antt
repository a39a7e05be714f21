-- ===== src/Yjs/Stored.antt =====
-- The state of a document that src/global/yjs/yjs-crdt.service.ts has put in Redis, and what does not
-- touch it.
pub mod Saves
pub mod Reload
use aideep_websocket.Common.{ℕ, Text, ◌≡◌, ◌≢◌, Bool, Option, some, List, ok, Io}
use aideep_websocket.Env.{Env}
use aideep_websocket.Env.Database.{NodeRow, NodeUpdate, FileRow, AttachmentRow}
use aideep_websocket.RedisKeys
use aideep_websocket.Attachments.Quiet.{IsQuiet}

module _ {D E W : Type 0} (env : Env D E W) where
  -- A read of the key gives the text, and changes nothing.
  abbrev pub Holds : Text → Text → W → Type 0
  Holds key text w = env.redis.get key w ≡ (ok (some text), w)

  -- A call after which the key still holds the text, if it did.
  abbrev pub IsApart : {A : Type 0} → Text → Text → Io W A → Type 0
  IsApart key text m = (w : W) → Holds key text w → Holds key text (m w).1

  -- A write of Redis can be read back, and the calls on the database, on other keys and on lists
  -- leave the key alone.
  pub record IsRedisLike (key text : Text) : Type 0 where
    pub sets : (ttl : ℕ) (w w' : W) → env.redis.set key text ttl w ≡ (ok tt, w') → Holds key text w'
    pub deletes : (other : Text) → other ≢ key → IsApart key text (env.redis.del other)
    pub pushes : (list value : Text) → IsApart key text (env.redis.r_push list value)
    pub finds_node : (n : Text) → IsApart key text (env.prisma.nodes_find_unique n)
    pub updates_node :
        (n : Text) (change : NodeRow → NodeRow)
        → IsApart key text (env.prisma.nodes_update n change)
    pub transacts :
        (body : Io W NodeUpdate)
        → IsApart key text body
        → IsApart key text (env.prisma.transaction body)
    pub quiet : IsQuiet env (Holds key text)
