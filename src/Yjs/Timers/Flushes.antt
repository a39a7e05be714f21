-- ===== src/Yjs/Timers/Flushes.antt =====
-- Loads, flushes, appends and cleanups of src/global/yjs/yjs-doc-manager.ts keep the save timers in
-- step with the documents.
use aideep_websocket.Common.{
  Text, ◌≡◌, refl, none, some, List, [], ◌∷◌, Option, Option-cases, Result-cases, inl, inr, Fault,
  pure, lift, ◌>>◌, >>=-keeps, catch-keeps, node_gone, text_eq_iff, arith,
}
use aideep_websocket.Common.Dict
use aideep_websocket.Common.Dict.{get-insert}
use aideep_websocket.Env.{Env, JsonCodec}
use aideep_websocket.Env.Database.{Persisted}
use aideep_websocket.Yjs.Markdown.{append_markdown_to_yjs_doc}
use aideep_websocket.Yjs.CrdtService.{save_to_redis}
use aideep_websocket.Yjs.Managed.{ManagedDoc, Manager, EmbedJob, put_doc, clear_timeout, on_world}
use aideep_websocket.Yjs.Flush.{
  Plan, Pending, up_to_date, write, begin, begin_loaded, begin_write, commit, finish,
  flush_doc_locked, saved_doc, saved_result, enqueue_if_edited, markdown_text,
}
use aideep_websocket.Yjs.Flush
use aideep_websocket.Yjs.Lifecycle.{
  wake, find_state, build_doc, register_doc, load_doc, get_or_create_doc, destroy_doc, cleanup_node,
}
use aideep_websocket.Yjs.DocManager.{
  handle_flush_error, background_flush, flush_each, flush_all, mark_appended, append_markdown,
}
use aideep_websocket.Yjs.Timers.{IsArmed}
use aideep_websocket.Yjs.Timers.Armed.{
  new-IsArmed, clear-IsArmed, put_doc-IsArmed, clear_timeout-IsArmed, docs-clear_timeout,
  destroy_doc-IsArmed,
}

module _ {D W : Type 0} where
  pub world-IsArmed : (w : W) (s : Manager D W) → IsArmed s → IsArmed (record s { world = w })
  world-IsArmed w s v = record { owned = v.owned; single = v.single }

  wake-IsArmed :
      (n : Text) (m : ManagedDoc D) (s : Manager D W)
      → Dict.get n s.docs ≡ some m
      → IsArmed s
      → IsArmed (wake n m s)
  unfolding wake
  wake-IsArmed n m s found v =
      put_doc-IsArmed n m _ (clear_timeout m.idle_timer s)
        (rw (docs-clear_timeout m.idle_timer s) found) refl (clear_timeout-IsArmed m.idle_timer s v)

module _ {D E W : Type 0} (env : Env D E W) where
  register_doc-IsArmed :
      (n ws : Text) (doc : D) (s : Manager D W)
      → Dict.get n s.docs ≡ none
      → IsArmed s
      → IsArmed (register_doc env n ws doc s)
  unfolding register_doc
  register_doc-IsArmed n ws doc s absent v = new-IsArmed n _ s absent refl v

  load_doc-IsArmed :
      (n ws : Text) (s : Manager D W)
      → Dict.get n s.docs ≡ none
      → IsArmed s
      → IsArmed (load_doc env n ws s).1
  unfolding load_doc
  load_doc-IsArmed n ws s absent v = elim (Result-cases (find_state env n ws s.world).0) [
    | inr (fault, failed) ↦ rw (failed, load_doc) (world-IsArmed _ s v)
    | inl ((state, owner), found) ↦ elim (Result-cases (build_doc env state)) [
      | inr (fault, failed) ↦ rw (found, load_doc, failed) (world-IsArmed _ s v)
      | inl (doc, built) ↦
          rw (found, load_doc, built)
            (register_doc-IsArmed n owner doc _ absent (world-IsArmed _ s v))
    ]
  ]

  pub get_or_create_doc-IsArmed :
      (n ws : Text) (s : Manager D W) → IsArmed s → IsArmed (get_or_create_doc env n ws s).1
  unfolding get_or_create_doc
  get_or_create_doc-IsArmed n ws s v = elim (Option-cases (Dict.get n s.docs)) [
    | inl absent ↦ rw (absent, get_or_create_doc) (load_doc-IsArmed n ws s absent v)
    | inr (m, found) ↦ rw (found, get_or_create_doc) (wake-IsArmed n m s found v)
  ]

  pub cleanup_node-IsArmed :
      (n : Text) (s : Manager D W) → IsArmed s → IsArmed (cleanup_node env n s).1
  unfolding cleanup_node
  cleanup_node-IsArmed n s v = elim (Option-cases (Dict.get n s.docs)) [
    | inl absent ↦ rw (absent, cleanup_node) (world-IsArmed _ s v)
    | inr (m, found) ↦
        rw (found, cleanup_node)
          (world-IsArmed _ (destroy_doc n m s) (destroy_doc-IsArmed n m s found v))
  ]

  begin_loaded-IsArmed :
      (n : Text) (m : ManagedDoc D) (known : Option Text) (s : Manager D W)
      → Dict.get n s.docs ≡ some m
      → IsArmed s
      → IsArmed (begin_loaded env n m known s).1
  unfolding begin_loaded begin_write
  begin_loaded-IsArmed n m known s found v =
      let current = env.crdt.encode_state_vector m.doc in
      elim (Option-cases (saved_result m.last_persisted m.last_saved_state_vector current)) [
        | inr (p, same) ↦ rw (same, begin_loaded) (put_doc-IsArmed n m _ s found refl v)
        | inl changed ↦
            rw (changed, begin_loaded)
              (>>=-keeps IsArmed (lift (markdown_text env m.doc known)) _ s v (λ _ t k. k))
      ]

  begin-IsArmed :
      (n : Text) (known : Option Text) (s : Manager D W)
      → IsArmed s
      → IsArmed (begin env n known s).1
  unfolding begin put_doc
  begin-IsArmed n known s v = elim (Option-cases (Dict.get n s.docs)) [
    | inl absent ↦ rw (absent, begin) v
    | inr (m, found) ↦
        let idle = record m { save_timer = none } in
        let u = clear_timeout m.save_timer s in
        rw (found, begin)
          (begin_loaded-IsArmed n idle known (put_doc n idle u) (Dict.get-insert_self n idle u.docs)
            (clear-IsArmed n m s (put_doc n idle u) found (λ j h there. there) (λ j. omega arith)
              (λ j other. ground (
                arith,
                get-insert n j idle u.docs,
                docs-clear_timeout m.save_timer s,
                text_eq_iff n j,
              ))
              v).0)
  ]

  module _ (jobs : JsonCodec EmbedJob) where
    commit-IsArmed :
        (n : Text) (plan : Plan) (p : Persisted) (s : Manager D W)
        → IsArmed s
        → IsArmed (commit env jobs n plan p s).1
    unfolding commit saved_doc
    commit-IsArmed n plan p s v = elim (Option-cases (Dict.get n s.docs)) [
      | inl absent ↦
          rw (absent, commit)
            (>>=-keeps IsArmed
              (on_world (enqueue_if_edited env jobs n plan.workspace_id plan.editor)) (λ _. pure p)
              s (world-IsArmed _ s v) (λ _ _ k. k))
      | inr (m, found) ↦
          let stored = put_doc n (saved_doc plan.state_vector p m) s in
          rw (found, commit)
            (>>=-keeps IsArmed
              (on_world (enqueue_if_edited env jobs n m.workspace_id (Flush.embed_user m)))
              (λ _. pure p) stored (world-IsArmed _ stored (put_doc-IsArmed n m _ s found refl v))
              (λ _ _ k. k))
    ]

    finish-IsArmed :
        (n : Text) (pending : Pending) (s : Manager D W)
        → IsArmed s
        → IsArmed (finish env jobs n pending s).1
    unfolding finish
    finish-IsArmed n (up_to_date state p) s v =
        >>=-keeps IsArmed (on_world (save_to_redis env n state)) _ s (world-IsArmed _ s v)
          (λ _ _ k. k)
    finish-IsArmed n (write plan) s v =
        >>=-keeps IsArmed (on_world (Flush.save env n plan)) _ s (world-IsArmed _ s v)
          (λ p t k. commit-IsArmed n plan p t k)

    flush_doc_locked-IsArmed :
        (n : Text) (known : Option Text) (s : Manager D W)
        → IsArmed s
        → IsArmed (flush_doc_locked env jobs n known s).1
    unfolding flush_doc_locked
    flush_doc_locked-IsArmed n known s v =
        >>=-keeps IsArmed (begin env n known) _ s (begin-IsArmed n known s v)
          (λ pending t k. finish-IsArmed n pending t k)

    mark_appended-IsArmed :
        (n : Text) (doc : D) (user : Text) (s : Manager D W)
        → IsArmed s
        → IsArmed (mark_appended env jobs n doc user s)
    unfolding mark_appended
    mark_appended-IsArmed n doc user s v = elim (Option-cases (Dict.get n s.docs)) [
      | inl absent ↦ rw (absent, mark_appended) v
      | inr (m, found) ↦ rw (found, mark_appended) (put_doc-IsArmed n m _ s found refl v)
    ]

    pub append_markdown-IsArmed :
        (n ws markdown user : Text) (s : Manager D W)
        → IsArmed s
        → IsArmed (append_markdown env jobs n ws markdown user s).1
    unfolding append_markdown
    append_markdown-IsArmed n ws markdown user s v =
        >>=-keeps IsArmed (get_or_create_doc env n ws) _ s (get_or_create_doc-IsArmed n ws s v)
          λ doc t h.
            >>=-keeps IsArmed (lift (append_markdown_to_yjs_doc env doc markdown)) _ t h
              λ appended u k.
                >>=-keeps IsArmed (flush_doc_locked env jobs n (some appended.markdown)) _
                  (mark_appended env jobs n appended.doc user u)
                  (flush_doc_locked-IsArmed n (some appended.markdown) _
                    (mark_appended-IsArmed n appended.doc user u k))
                  (λ _ _ l. l)

  handle_flush_error-IsArmed :
      (n : Text) (fault : Fault) (s : Manager D W)
      → IsArmed s
      → IsArmed (handle_flush_error env n fault s).1
  unfolding handle_flush_error
  handle_flush_error-IsArmed n (node_gone gone) s v =
      catch-keeps IsArmed (cleanup_node env n) (λ _. pure tt) s (cleanup_node-IsArmed n s v)
        (λ _ _ k. k)
  handle_flush_error-IsArmed n _ s v = v

  module _ (jobs : JsonCodec EmbedJob) where
    pub background_flush-IsArmed :
        (n : Text) (s : Manager D W) → IsArmed s → IsArmed (background_flush env jobs n s).1
    unfolding background_flush
    background_flush-IsArmed n s v =
        catch-keeps IsArmed (flush_doc_locked env jobs n none >> pure tt) (handle_flush_error env n)
          s
          (>>=-keeps IsArmed (flush_doc_locked env jobs n none) (λ _. pure tt) s
            (flush_doc_locked-IsArmed jobs n none s v) (λ _ _ k. k))
          (λ fault t k. handle_flush_error-IsArmed n fault t k)

    flush_each-IsArmed :
        (nodes : List Text) (s : Manager D W) → IsArmed s → IsArmed (flush_each env jobs nodes s).1
    unfolding flush_each
    flush_each-IsArmed [] s v = v
    flush_each-IsArmed (n ∷ rest) s v =
        >>=-keeps IsArmed (background_flush env jobs n) _ s (background_flush-IsArmed n s v)
          (λ _ t k. flush_each-IsArmed rest t k)

    pub flush_all-IsArmed : (s : Manager D W) → IsArmed s → IsArmed (flush_all env jobs s).1
    unfolding flush_all
    flush_all-IsArmed s v = flush_each-IsArmed (Dict.keys s.docs) s v
