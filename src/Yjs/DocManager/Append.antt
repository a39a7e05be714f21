-- ===== src/Yjs/DocManager/Append.antt =====
-- What an append leaves in memory: `appendMarkdown` of src/global/yjs/yjs-doc-manager.ts.
use aideep_websocket.Common.{
  Text, true, false, ◌≡◌, Option, none, some, [], Option-cases, inl, inr, ok, Result, lift, >>=-ok,
  arith,
}
use aideep_websocket.Common.Dict
use aideep_websocket.Common.Dict.{get-insert_self}
use aideep_websocket.Env.{Env, JsonCodec}
use aideep_websocket.Env.Database.{Persisted}
use aideep_websocket.Yjs.Markdown.{Appended, append_markdown_to_yjs_doc}
use aideep_websocket.Yjs.Managed.{ManagedDoc, Manager, EmbedJob, put_doc, clear_timeout, on_world}
use aideep_websocket.Yjs.Lifecycle.{
  wake, find_state, build_doc, register_doc, load_doc, get_or_create_doc,
}
use aideep_websocket.Yjs.Flush.{flush_doc_locked}
use aideep_websocket.Yjs.Flush.Outcome.{flush_doc_locked-IsSavedAs}
use aideep_websocket.Yjs.DocManager.{AppendResult, mark_appended, append_markdown}

-- A document in memory whose idle timer is off, and which is the one that was handed out.
abbrev IsAwake : {D : Type 0} → D → Option (ManagedDoc D) → Type 0
IsAwake doc none = ⊥
IsAwake doc (some m) = (m.idle_timer ≡ none) × (m.doc ≡ doc)

module _ {D E W : Type 0} (env : Env D E W) (n : Text) where
  abbrev fresh : Text → D → Manager D W → ManagedDoc D
  fresh ws doc s = record {
    doc = doc;
    clients = [];
    workspace_id = ws;
    save_timer = none;
    idle_timer = none;
    last_activity = env.date_now s.world;
    dirty_for_embed = false;
    last_editor_user_id = none;
    last_saved_state_vector = none;
    last_persisted = none;
  }

  load_doc-IsAwake :
      (ws : Text) (s s' : Manager D W) (doc : D)
      → load_doc env n ws s ≡ (ok doc, s')
      → IsAwake doc (Dict.get n s'.docs)
  unfolding load_doc register_doc put_doc
  load_doc-IsAwake ws s s' doc e =
      let (found, t, got, e₁) = >>=-ok (on_world (find_state env n ws)) _ s e in
      let (built, u, done, e₂) = >>=-ok (lift (build_doc env found.0)) _ t e₁ in
      ground (arith, get-insert_self n (fresh found.1 built u) u.docs)

  get_or_create_doc-IsAwake :
      (ws : Text) (s s' : Manager D W) (doc : D)
      → get_or_create_doc env n ws s ≡ (ok doc, s')
      → IsAwake doc (Dict.get n s'.docs)
  unfolding get_or_create_doc wake put_doc
  get_or_create_doc-IsAwake ws s s' doc e = elim (Option-cases (Dict.get n s.docs)) [
    | inl absent ↦ ground (arith, load_doc-IsAwake ws s s' doc)
    | inr (m, found) ↦ ground (
      arith,
      get-insert_self n (record m { idle_timer = none }) (clear_timeout m.idle_timer s).docs,
    )
  ]

  abbrev marked : D → Text → Manager D W → ManagedDoc D → ManagedDoc D
  marked doc user s m = record m {
    doc = doc;
    dirty_for_embed = true;
    last_editor_user_id = some user;
    last_activity = env.date_now s.world;
  }

  mark_appended-found :
      (jobs : JsonCodec EmbedJob) (doc : D) (user : Text) (s : Manager D W) (m : ManagedDoc D)
      → Dict.get n s.docs ≡ some m
      → Dict.get n (mark_appended env jobs n doc user s).docs ≡ some (marked doc user s m)
  unfolding mark_appended put_doc
  mark_appended-found jobs doc user s m found =
      ground (arith, get-insert_self n (marked doc user s m) s.docs)

  -- The document whose save an append has answered with, and no timer for it.
  abbrev pub IsSaved : AppendResult → Option (ManagedDoc D) → Type 0
  IsSaved r none = ⊥
  IsSaved r (some m) =
      (m.last_saved_state_vector ≡ some (env.crdt.encode_state_vector m.doc))
      × (m.last_persisted ≡ some r.persisted)
      × (m.save_timer ≡ none)
      × (m.idle_timer ≡ none)

  module _ (jobs : JsonCodec EmbedJob) where
    IsSaved-of_flush :
        (appended : Appended D) (user : Text) (t u v s' : Manager D W) (p : Persisted)
        (r : AppendResult) (doc : D)
        → IsAwake doc (Dict.get n t.docs)
        → u ≡ t
        → flush_doc_locked env jobs n
            (some appended.markdown)
            (mark_appended env jobs n appended.doc user u)
          ≡ (ok p, v)
        → ◌≡◌ {A = Result AppendResult × Manager D W}
            (ok (record { update = appended.update; persisted = p }), v)
            (ok r, s')
        → IsSaved r (Dict.get n s'.docs)
    IsSaved-of_flush appended user t u v s' p r doc awake same flushed e =
        elim (Option-cases (Dict.get n t.docs)) [
          | inl absent ↦ ground arith
          | inr (m, found) ↦ ground (
            arith,
            flush_doc_locked-IsSavedAs env n jobs (some appended.markdown)
                (mark_appended env jobs n appended.doc user u) v (marked appended.doc user u m) p
                (mark_appended-found jobs appended.doc user u m (ground arith)) flushed,
          )
        ]

    -- An append that succeeds leaves the document in memory with its state vector and the returned
    -- version on record as saved, with no save timer and with no idle timer, whether or not the
    -- document was in memory before and whether or not it has clients.
    pub append_markdown-IsSaved :
        (ws markdown user : Text) (s s' : Manager D W) (r : AppendResult)
        → append_markdown env jobs n ws markdown user s ≡ (ok r, s')
        → IsSaved r (Dict.get n s'.docs)
    unfolding append_markdown
    append_markdown-IsSaved ws markdown user s s' r e =
        let (doc, t, got, e₁) = >>=-ok (get_or_create_doc env n ws) _ s e in
        let (appended, u, done, e₂) =
          >>=-ok (lift (append_markdown_to_yjs_doc env doc markdown)) _ t e₁ in
        let marked_doc = mark_appended env jobs n appended.doc user u in
        let (p, v, flushed, e₃) =
          >>=-ok (flush_doc_locked env jobs n (some appended.markdown)) _ marked_doc e₂ in
        IsSaved-of_flush appended user t u v s' p r doc (get_or_create_doc-IsAwake ws s t doc got)
          (ground arith) flushed e₃
