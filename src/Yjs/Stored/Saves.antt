-- ===== src/Yjs/Stored/Saves.antt =====
-- src/global/yjs/yjs-crdt.service.ts: the save of a row and the sync of its attachments leave the state in Redis alone.
use aideep_websocket.Common.{
  Text, Bytes, ◌≢◌, Option, none, some, pure, catch, >>=-keeps, catch-keeps, arith,
}
use aideep_websocket.Env.{Env}
use aideep_websocket.Env.Database.{Content, NodeRow}
use aideep_websocket.RedisKeys.{yjs_doc, workspace_sync}
use aideep_websocket.Attachments.{sync_node_attachments}
use aideep_websocket.Attachments.Quiet.{sync_node_attachments-Keeps}
use aideep_websocket.Yjs.CrdtService.{write_node_row, update_node_row, save_to_db, spread}
use aideep_websocket.Yjs.Stored.{Holds, IsApart, IsRedisLike}

workspace_sync-yjs_doc : (ws n : Text) → workspace_sync ws ≢ yjs_doc n
unfolding workspace_sync yjs_doc
workspace_sync-yjs_doc ws n e = ground arith

module _ {D E W : Type 0} (env : Env D E W) (n text : Text)
    (laws : IsRedisLike env (yjs_doc n) text) where
  abbrev P : W → Type 0
  P = Holds env (yjs_doc n) text

  write_node_row-IsApart :
      (node : Text) (state : Bytes) (markdown : Text) (row : Option NodeRow)
      → IsApart env (yjs_doc n) text (write_node_row env node state markdown row)
  unfolding write_node_row
  write_node_row-IsApart node state markdown none w h = h
  write_node_row-IsApart node state markdown (some row) w h =
      >>=-keeps P (env.prisma.nodes_update node _) _ w (laws.updates_node node _ w h) (λ _ _ k. k)

  update_node_row-IsApart :
      (node : Text) (state : Bytes) (markdown : Text)
      → IsApart env (yjs_doc n) text (update_node_row env node state markdown)
  unfolding update_node_row
  update_node_row-IsApart node state markdown = laws.transacts _ λ w h.
      >>=-keeps P (env.prisma.nodes_find_unique node) _ w (laws.finds_node node w h)
        (λ row t k. write_node_row-IsApart node state markdown row t k)

  pub save_to_db-IsApart :
      (node : Text) (state : Bytes) (markdown ws : Text) (content : Content)
      → IsApart env (yjs_doc n) text (save_to_db env node state markdown ws content)
  unfolding save_to_db
  save_to_db-IsApart node state markdown ws content w h =
      >>=-keeps P (update_node_row env node state markdown) _ w
        (update_node_row-IsApart node state markdown w h)
        λ update t k.
          >>=-keeps P
            (sync_node_attachments env node ws (some (spread update.updated_content content))) _ t
            (sync_node_attachments-Keeps env laws.quiet node ws
              (some (spread update.updated_content content)) t k)
            λ _ u l.
              >>=-keeps P (catch (env.redis.del (workspace_sync ws)) (λ _. pure tt)) _ u
                (catch-keeps P (env.redis.del (workspace_sync ws)) (λ _. pure tt) u
                  (laws.deletes (workspace_sync ws) (workspace_sync-yjs_doc ws n) u l) (λ _ _ m. m))
                (λ _ _ m. m)
