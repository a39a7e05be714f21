-- ===== src/Yjs/CrdtService.antt =====
-- src/global/yjs/yjs-crdt.service.ts: a document's state in Redis and in its row of `nodes`.
pub mod Rows
use aideep_websocket.Common.{
  ℕ, ◌+◌, Text, Bytes, codes, Option, none, some, [], ◌∷◌, Result, ok, err, Io, pure, throw, lift,
  catch, ◌>>=◌, ◌>>◌, node_gone, is_empty, if◌then◌else◌,
}
use aideep_websocket.Common.Dict
use aideep_websocket.Env.{Env, now}
use aideep_websocket.Env.Database.{Json, str, Content, NodeRow, NodeUpdate, Persisted}
use aideep_websocket.RedisKeys
use aideep_websocket.Attachments.{sync_node_attachments}
use aideep_websocket.Yjs.Markdown.{markdown_to_yjs_update}

-- What `loadFromDb` finds.
pub record Loaded : Type 0 where
  pub state : Option Bytes
  pub workspace_id : Text

abbrev pub yjs_doc_ttl : ℕ
yjs_doc_ttl = 86400

abbrev pub markdown_body : Text
markdown_body = codes "markdownBody"

-- (node.content as Record<string, any>) ?? {}
abbrev pub content_or_empty : Option Content → Content
content_or_empty none = []
content_or_empty (some content) = content

-- { ...content, ...others }
unfoldable pub spread : Content → Content → Content
spread content [] = content
spread content ((k, v) ∷ others) = spread (Dict.insert k v content) others

-- markdownBody, if it is a text that is not empty.
unfoldable pub body_text : Option Json → Option Text
body_text (some (str (c ∷ t))) = some (c ∷ t)
body_text _ = none

module _ {D E W : Type 0} (env : Env D E W) where
  unfoldable pub load_from_redis : Text → Io W (Option Bytes)
  load_from_redis node_id = do
    found ← catch (env.redis.get (RedisKeys.yjs_doc node_id)) (λ _. pure none)
    elim found [
      | none ↦ pure none
      | some text ↦ if is_empty text then pure none else pure (some (env.base64.decode text))
    ]

  unfoldable pub save_to_redis : Text → Bytes → Io W (Unit {0})
  save_to_redis node_id state =
      env.redis.set (RedisKeys.yjs_doc node_id) (env.base64.encode state) yjs_doc_ttl

  unfoldable pub delete_from_redis : Text → Io W (Unit {0})
  delete_from_redis node_id = env.redis.del (RedisKeys.yjs_doc node_id)

  -- The lazy migration of a row that has no state yet.
  unfoldable pub bootstrap_state : NodeRow → Result Loaded
  bootstrap_state node = elim (body_text (Dict.get markdown_body (content_or_empty node.content))) [
    | none ↦ ok (record { state = none; workspace_id = node.workspace_id })
    | some markdown ↦ elim (markdown_to_yjs_update env markdown) [
      | err e ↦ err e
      | ok state ↦ ok (record { state = some state; workspace_id = node.workspace_id })
    ]
  ]

  unfoldable pub load_row : Option NodeRow → Result (Option Loaded)
  unfolding bootstrap_state
  load_row none = ok none
  load_row (some node) = elim node.yjs_state [
    | some state ↦ ok (some (record { state = some state; workspace_id = node.workspace_id }))
    | none ↦ elim (bootstrap_state node) [ err e ↦ err e | ok loaded ↦ ok (some loaded) ]
  ]

  unfoldable pub load_from_db : Text → Io W (Option Loaded)
  unfolding load_row
  load_from_db node_id = do node ← env.prisma.nodes_find_unique node_id; lift (load_row node)

  -- The body of `updateNodeRow`, for the row that it found.
  unfoldable pub write_node_row : Text → Bytes → Text → Option NodeRow → Io W NodeUpdate
  write_node_row node_id state markdown_text none = throw (node_gone node_id)
  write_node_row node_id state markdown_text (some node) = do
    let updated_content =
        Dict.insert markdown_body (str markdown_text) (content_or_empty node.content)
    date ← now env
    updated ← env.prisma.nodes_update node_id (λ row. record row {
      yjs_state = some state;
      content = some updated_content;
      version = row.version + 1;
      updated_at = date;
    })
    pure (record {
      persisted = record { version = updated.version; updated_at = updated.updated_at };
      updated_content = updated_content;
    })

  -- The read and the write are one transaction.
  unfoldable pub update_node_row : Text → Bytes → Text → Io W NodeUpdate
  update_node_row node_id state markdown_text = env.prisma.transaction (do
    node ← env.prisma.nodes_find_unique node_id
    write_node_row node_id state markdown_text node)

  unfoldable pub save_to_db : Text → Bytes → Text → Text → Content → Io W Persisted
  save_to_db node_id state markdown_text workspace_id attachment_content = do
    update ← update_node_row node_id state markdown_text
    sync_node_attachments env node_id workspace_id
        (some (spread update.updated_content attachment_content))
    catch (env.redis.del (RedisKeys.workspace_sync workspace_id)) (λ _. pure tt)
    pure update.persisted
