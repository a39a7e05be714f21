-- ===== src/Yjs/Flush.antt =====
-- Saving a document: `flushDocLocked` of src/global/yjs/yjs-doc-manager.ts in three parts. `begin`
-- runs up to the first `await`, `save` is what is awaited, and `commit` runs when it has come back.
pub mod Outcome
pub mod Again
pub mod Lost
use aideep_websocket.Common.{
  Text, Bytes, false, Option, none, some, [], ◌∷◌, Result, ok, err, Io, pure, lift, ◌>>=◌, ◌>>◌,
  not_loaded, text_eq, is_empty, if◌then◌else◌,
}
use aideep_websocket.Common.Dict
use aideep_websocket.Env.{Env, JsonCodec}
use aideep_websocket.Env.Database.{Content, Persisted}
use aideep_websocket.Yjs.Markdown.{yjs_doc_to_markdown, yjs_doc_to_attachment_content}
use aideep_websocket.Yjs.CrdtService.{save_to_redis, save_to_db}
use aideep_websocket.Yjs.Managed.{
  ManagedDoc, Manager, EmbedJob, clear_timeout, put_doc, on_world, enqueue_embed_job,
}

-- What a flush is about to write.
pub record Plan : Type 0 where
  pub state : Bytes
  pub state_vector : Bytes
  pub markdown_text : Text
  pub workspace_id : Text
  pub attachment_content : Result Content
  -- the editor for whom a job is due if the document leaves memory before the save has come back
  pub editor : Option Text

-- A flush past its first `await`: nothing to save but the lifetime in Redis, or a plan.
pub data Pending : Type 0 where
  up_to_date : Bytes → Persisted → Pending
  write : Plan → Pending

-- A text that is there and not empty.
abbrev pub truthy : Option Text → Option Text
truthy none = none
truthy (some []) = none
truthy (some (c ∷ t)) = some (c ∷ t)

-- lastPersisted && lastSavedStateVector?.equals(stateVector)
unfoldable pub saved_result : Option Persisted → Option Bytes → Bytes → Option Persisted
saved_result none saved state_vector = none
saved_result (some persisted) none state_vector = none
saved_result (some persisted) (some saved) state_vector =
    if text_eq saved state_vector then some persisted else none

-- Promise.all of two calls: both run, and it rejects if one of them does.
abbrev pub both : {W A B : Type 0} → Io W A → Io W B → Io W B
both m n w =
    let (r, w') = m w in let (r', w'') = n w' in (elim r [ ok _ ↦ r' | err e ↦ err e ], w'')

-- The document after a save, and the editor for whom an embedding job is due.
unfoldable pub saved_doc : {D : Type 0} → Bytes → Persisted → ManagedDoc D → ManagedDoc D
saved_doc state_vector persisted managed = record managed {
  last_saved_state_vector = some state_vector;
  last_persisted = some persisted;
  dirty_for_embed = elim (truthy managed.last_editor_user_id) [
    | some _ ↦ false
    | none ↦ managed.dirty_for_embed
  ];
}

unfoldable pub embed_user : {D : Type 0} → ManagedDoc D → Option Text
embed_user managed = if managed.dirty_for_embed then truthy managed.last_editor_user_id else none

-- known ?? otherwise
abbrev pub known_or : Option Text → Result Text → Result Text
known_or (some text) otherwise = ok text
known_or none otherwise = otherwise

module _ {D E W : Type 0} (env : Env D E W) where
  -- knownMarkdown ?? yjsDocToMarkdown(managed.doc), and rootText where that is empty
  unfoldable pub markdown_text : D → Option Text → Result Text
  markdown_text doc known = elim (known_or known (yjs_doc_to_markdown env doc)) [
    | err e ↦ err e
    | ok structured ↦ ok (if is_empty structured then env.crdt.root_text doc else structured)
  ]

  unfoldable pub begin_write : Text → ManagedDoc D → Option Text → Io (Manager D W) Pending
  begin_write node_id managed known = do
    text ← lift (markdown_text managed.doc known)
    pure (
        write (record {
          state = env.crdt.encode_state_as_update managed.doc;
          state_vector = env.crdt.encode_state_vector managed.doc;
          markdown_text = text;
          workspace_id = managed.workspace_id;
          attachment_content = yjs_doc_to_attachment_content env managed.doc;
          editor = embed_user managed;
        }))

  -- With the document found and its save timer cleared.
  unfoldable pub begin_loaded : Text → ManagedDoc D → Option Text → Io (Manager D W) Pending
  unfolding begin_write saved_result
  begin_loaded node_id managed known s =
      elim (saved_result managed.last_persisted managed.last_saved_state_vector
        (env.crdt.encode_state_vector managed.doc)) [
          | some persisted ↦ (
            ok (up_to_date (env.crdt.encode_state_as_update managed.doc) persisted),
            put_doc node_id (record managed { dirty_for_embed = false }) s,
          )
          | none ↦ begin_write node_id managed known s
        ]

  unfoldable pub begin : Text → Option Text → Io (Manager D W) Pending
  unfolding begin_loaded
  begin node_id known s = elim (Dict.get node_id s.docs) [
    | none ↦ (err (not_loaded node_id), s)
    | some managed ↦
        let idle = record managed { save_timer = none } in
        begin_loaded node_id idle known (put_doc node_id idle (clear_timeout managed.save_timer s))
  ]

  unfoldable pub save : Text → Plan → Io W Persisted
  save node_id plan = elim plan.attachment_content [
    | err e ↦ λ w. let (_, w') = save_to_redis env node_id plan.state w in (err e, w')
    | ok content ↦
        both (save_to_redis env node_id plan.state)
          (save_to_db env node_id plan.state plan.markdown_text plan.workspace_id content)
  ]

  module _ (jobs : JsonCodec EmbedJob) where
    unfoldable pub enqueue_if_edited : Text → Text → Option Text → Io W (Unit {0})
    enqueue_if_edited node_id workspace_id none = pure tt
    enqueue_if_edited node_id workspace_id (some user_id) =
        enqueue_embed_job env jobs
          (record { node_id = node_id; user_id = user_id; workspace_id = workspace_id })

    -- A document that has left memory is still known to the flush, as the flush has found it.
    unfoldable pub commit : Text → Plan → Persisted → Io (Manager D W) Persisted
    unfolding embed_user
    commit node_id plan persisted s = elim (Dict.get node_id s.docs) [
      | none ↦
          (on_world (enqueue_if_edited node_id plan.workspace_id plan.editor) >> pure persisted) s
      | some managed ↦
          let stored = put_doc node_id (saved_doc plan.state_vector persisted managed) s in
          (on_world (enqueue_if_edited node_id managed.workspace_id (embed_user managed))
              >> pure persisted)
            stored
    ]

    unfoldable pub finish : Text → Pending → Io (Manager D W) Persisted
    finish node_id (up_to_date state persisted) = do
      on_world (save_to_redis env node_id state)
      pure persisted
    finish node_id (write plan) = do
      persisted ← on_world (save node_id plan)
      commit node_id plan persisted

    unfoldable pub flush_doc_locked : Text → Option Text → Io (Manager D W) Persisted
    flush_doc_locked node_id known = do pending ← begin node_id known; finish node_id pending
