-- ===== src/Yjs/DocManager.antt =====
-- src/global/yjs/yjs-doc-manager.ts: who has a document open, what its edits set off, and the flushes.
pub mod Append
pub mod Clients
pub mod Idle
pub mod NoNewClients
use aideep_websocket.Common.{
  ◌+◌, Text, Bytes, true, Option, none, some, List, [], ◌∷◌, ◌++◌, ok, err, Fault, Io, pure, lift,
  catch, ◌>>=◌, ◌>>◌, node_gone, is_empty, if◌then◌else◌,
}
use aideep_websocket.Common.Dict
use aideep_websocket.Common.Items
use aideep_websocket.Env.{Env, JsonCodec}
use aideep_websocket.Env.Database.{Persisted}
use aideep_websocket.Yjs.Markdown.{append_markdown_to_yjs_doc}
use aideep_websocket.Yjs.Lifecycle.{now_of, get_or_create_doc, cleanup_node}
use aideep_websocket.Yjs.Managed.{
  ManagedDoc, Manager, EmbedJob, save, evict, clear_timeout, set_timeout, put_doc, debounce_save_ms,
  doc_idle_timeout_ms,
}
use aideep_websocket.Yjs.Flush.{flush_doc_locked, truthy}

-- The result of `appendMarkdown`.
pub record AppendResult : Type 0 where
  pub update : Bytes
  pub persisted : Persisted

module _ {D E W : Type 0} (env : Env D E W) where
  unfoldable pub add_client : Text → Text → Manager D W → Manager D W
  add_client node_id socket_id s = elim (Dict.get node_id s.docs) [
    | none ↦ s
    | some managed ↦
        put_doc node_id
          (record managed {
            clients = Items.add socket_id managed.clients;
            last_activity = now_of env s;
          })
          s
  ]

  -- The last client starts a flush, which runs later, and the idle timer.
  unfoldable pub leave_idle : Text → ManagedDoc D → Manager D W → Manager D W
  leave_idle node_id managed s =
      put_doc node_id (record managed { idle_timer = some s.next_timer })
        (set_timeout (now_of env s + doc_idle_timeout_ms) (evict node_id)
          (record s { flushes = s.flushes ++ node_id ∷ [] }))

  unfoldable pub remove_client : Text → Text → Manager D W → Manager D W
  unfolding leave_idle
  remove_client node_id socket_id s = elim (Dict.get node_id s.docs) [
    | none ↦ s
    | some managed ↦
        let left = record managed { clients = Items.delete socket_id managed.clients } in
        if is_empty left.clients then leave_idle node_id left s else put_doc node_id left s
  ]

  unfoldable pub editor_or : Option Text → Option Text → Option Text
  editor_or user_id last = elim (truthy user_id) [ none ↦ last | some user ↦ some user ]

  unfoldable pub schedule_save : Text → Option Text → Manager D W → Manager D W
  unfolding editor_or
  schedule_save node_id user_id s = elim (Dict.get node_id s.docs) [
    | none ↦ s
    | some managed ↦
        let cleared = clear_timeout managed.save_timer s in
        put_doc node_id
          (record managed {
            last_activity = now_of env s;
            dirty_for_embed = true;
            last_editor_user_id = editor_or user_id managed.last_editor_user_id;
            save_timer = some cleared.next_timer;
          })
          (set_timeout (now_of env s + debounce_save_ms) (save node_id) cleared)
  ]

  unfoldable pub apply_update : Text → Bytes → Option Text → Io (Manager D W) (Unit {0})
  apply_update node_id update user_id s = elim (Dict.get node_id s.docs) [
    | none ↦ (ok tt, s)
    | some managed ↦ elim (env.crdt.apply_update managed.doc update) [
      | err e ↦ (err e, s)
      | ok doc ↦
          (ok tt, schedule_save node_id user_id (put_doc node_id (record managed { doc = doc }) s))
    ]
  ]

  -- A flush of a node that is gone cleans it up; any other failure is only logged.
  unfoldable pub handle_flush_error : Text → Fault → Io (Manager D W) (Unit {0})
  handle_flush_error node_id (node_gone gone) = catch (cleanup_node env node_id) (λ _. pure tt)
  handle_flush_error node_id _ = pure tt

  module _ (jobs : JsonCodec EmbedJob) where
    -- A flush that nobody waits for.
    unfoldable pub background_flush : Text → Io (Manager D W) (Unit {0})
    background_flush node_id =
        catch (flush_doc_locked env jobs node_id none >> pure tt) (handle_flush_error node_id)

    unfoldable pub mark_appended : Text → D → Text → Manager D W → Manager D W
    mark_appended node_id doc user_id s = elim (Dict.get node_id s.docs) [
      | none ↦ s
      | some managed ↦
          put_doc node_id
            (record managed {
              doc = doc;
              dirty_for_embed = true;
              last_editor_user_id = some user_id;
              last_activity = now_of env s;
            })
            s
    ]

    unfoldable pub append_markdown : Text → Text → Text → Text → Io (Manager D W) AppendResult
    append_markdown node_id workspace_id markdown user_id = do
      doc ← get_or_create_doc env node_id workspace_id
      appended ← lift (append_markdown_to_yjs_doc env doc markdown)
      (λ s. (ok tt, mark_appended node_id appended.doc user_id s))
      persisted ← flush_doc_locked env jobs node_id (some appended.markdown)
      pure (record { update = appended.update; persisted = persisted })

    -- The flushes of a list of nodes, in their order.
    unfoldable pub flush_each : List Text → Io (Manager D W) (Unit {0})
    flush_each [] = pure tt
    flush_each (node_id ∷ rest) = background_flush node_id >> flush_each rest

    unfoldable pub flush_all : Io (Manager D W) (Unit {0})
    flush_all s = flush_each (Dict.keys s.docs) s

    unfoldable pub on_module_destroy : Io (Manager D W) (Unit {0})
    on_module_destroy = do flush_all; λ s. (ok tt, record s { docs = [] })
