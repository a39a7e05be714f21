-- ===== src/Yjs/DocManager/NoNewClients.antt =====
-- The manager's work on its own, which gives no document a client: flushes, appends, evictions and
-- cleanups.
use aideep_websocket.Common.{
  Text, ◌≡◌, refl, ◌∙◌, true, false, Option, none, some, List, [], ◌∷◌, Option-cases, Result-cases,
  inl, inr, Fault, pure, lift, ◌>>◌, >>=-keeps, catch-keeps, node_gone, arith,
}
use aideep_websocket.Common.Dict
use aideep_websocket.Env.{Env, JsonCodec}
use aideep_websocket.Env.Database.{Persisted}
use aideep_websocket.Yjs.Markdown.{append_markdown_to_yjs_doc}
use aideep_websocket.Yjs.CrdtService.{save_to_redis, delete_from_redis}
use aideep_websocket.Yjs.Managed.{
  ManagedDoc, Manager, Timer, TimerAction, save, evict, EmbedJob, put_doc, clear_timeout, on_world,
}
use aideep_websocket.Yjs.Flush.{
  Plan, Pending, up_to_date, write, begin, begin_loaded, begin_write, commit, finish,
  flush_doc_locked, saved_doc, saved_result, enqueue_if_edited, markdown_text,
}
use aideep_websocket.Yjs.Flush
use aideep_websocket.Yjs.Lifecycle.{
  destroy_doc, evict_doc, run_action, fire, cleanup_node, get_or_create_doc,
}
use aideep_websocket.Yjs.DocManager.{
  handle_flush_error, background_flush, flush_each, flush_all, mark_appended, append_markdown,
}
use aideep_websocket.Yjs.DocManager.Clients.{
  has_client, has_client-same_clients, has_client-clear_timeout, has_client-world,
  has_client_of_docs, has_client-destroy_doc, has_client-get_or_create_doc,
}

-- Every client of a document in `t` is one in `s`.
abbrev pub NoNewClients : {D W : Type 0} → Manager D W → Manager D W → Type 0
NoNewClients s t = (j a : Text) → has_client j a t ≡ true → has_client j a s ≡ true

module _ {D W : Type 0} where
  destroy_doc-NoNewClients :
      (n : Text) (m : ManagedDoc D) (s : Manager D W) → NoNewClients s (destroy_doc n m s)
  destroy_doc-NoNewClients n m s j a h = ground (arith, has_client-destroy_doc n j a m s)

  run_action-NoNewClients :
      (action : TimerAction) (s : Manager D W) → NoNewClients s (run_action action s)
  unfolding run_action evict_doc
  run_action-NoNewClients (save n) s j a h = rw (has_client_of_docs j a s) at h
  run_action-NoNewClients (evict n) s j a h = elim (Option-cases (Dict.get n s.docs)) [
    | inl absent ↦ ground arith
    | inr (m, found) ↦ ground (arith, destroy_doc-NoNewClients n m s j a)
  ]

  pub fire-NoNewClients : (timer : Timer) (s : Manager D W) → NoNewClients s (fire timer s)
  unfolding fire
  fire-NoNewClients timer s j a h =
      rw (has_client_of_docs j a s) at (run_action-NoNewClients timer.action _ j a h)

module _ {D E W : Type 0} (env : Env D E W) where
  begin_loaded-clients :
      (n : Text) (m m' : ManagedDoc D) (known : Option Text) (s s' : Manager D W)
      → Dict.get n s.docs ≡ some m
      → m'.clients ≡ m.clients
      → ((j a : Text) → has_client j a s' ≡ has_client j a s)
      → (j a : Text) → has_client j a (begin_loaded env n m' known s').1 ≡ has_client j a s
  unfolding begin_loaded
  begin_loaded-clients n m m' known s s' found kept same j a = ground (
    arith,
    has_client-same_clients n j a m (record m' { dirty_for_embed = false }) s s' found kept
        (same j a),
    same j a,
  )

  begin-clients :
      (n : Text) (known : Option Text) (s : Manager D W) (j a : Text)
      → has_client j a (begin env n known s).1 ≡ has_client j a s
  unfolding begin
  begin-clients n known s j a = elim (Option-cases (Dict.get n s.docs)) [
    | inl absent ↦ ground arith
    | inr (m, found) ↦
        rw (found, begin)
          (begin_loaded-clients n m (record m { save_timer = none }) known s _ found refl
            (λ j a.
              has_client-same_clients n j a m _ s (clear_timeout m.save_timer s) found refl
                (has_client-clear_timeout j a m.save_timer s))
            j a)
  ]

  module _ (jobs : JsonCodec EmbedJob) where
    commit-clients :
        (n : Text) (plan : Plan) (p : Persisted) (s : Manager D W) (j a : Text)
        → has_client j a (commit env jobs n plan p s).1 ≡ has_client j a s
    unfolding commit saved_doc
    commit-clients n plan p s j a = elim (Option-cases (Dict.get n s.docs)) [
      | inl absent ↦
          rw (absent, commit)
            (>>=-keeps (λ t. has_client j a t ≡ has_client j a s)
              (on_world (enqueue_if_edited env jobs n plan.workspace_id plan.editor)) (λ _. pure p)
              s (has_client-world j a _ s) (λ _ _ h. h))
      | inr (m, found) ↦
          rw (found, commit)
            (>>=-keeps (λ t. has_client j a t ≡ has_client j a s)
              (on_world (enqueue_if_edited env jobs n m.workspace_id (Flush.embed_user m)))
              (λ _. pure p) (put_doc n (saved_doc plan.state_vector p m) s)
              (has_client-world j a _ (put_doc n (saved_doc plan.state_vector p m) s)
                ∙ has_client-same_clients n j a m _ s s found refl refl)
              (λ _ _ h. h))
    ]

    finish-clients :
        (n : Text) (pending : Pending) (s : Manager D W) (j a : Text)
        → has_client j a (finish env jobs n pending s).1 ≡ has_client j a s
    unfolding finish
    finish-clients n (up_to_date state p) s j a =
        ground (arith, has_client-world j a (save_to_redis env n state s.world).1 s)
    finish-clients n (write plan) s j a = elim (Result-cases (Flush.save env n plan s.world).0) [
      | inr (fault, failed) ↦ rw (failed, finish) (has_client-world j a _ s)
      | inl (p, saved) ↦
          rw (saved, finish) (commit-clients n plan p _ j a ∙ has_client-world j a _ s)
    ]

    pub flush_doc_locked-clients :
        (n : Text) (known : Option Text) (s : Manager D W) (j a : Text)
        → has_client j a (flush_doc_locked env jobs n known s).1 ≡ has_client j a s
    unfolding flush_doc_locked
    flush_doc_locked-clients n known s j a = elim (Result-cases (begin env n known s).0) [
      | inr (fault, failed) ↦ rw (failed, flush_doc_locked) (begin-clients n known s j a)
      | inl (pending, begun) ↦
          rw (begun, flush_doc_locked)
            (finish-clients n pending _ j a ∙ begin-clients n known s j a)
    ]

    mark_appended-clients :
        (n : Text) (doc : D) (user : Text) (s : Manager D W) (j a : Text)
        → has_client j a (mark_appended env jobs n doc user s) ≡ has_client j a s
    unfolding mark_appended
    mark_appended-clients n doc user s j a = elim (Option-cases (Dict.get n s.docs)) [
      | inl absent ↦ ground arith
      | inr (m, found) ↦
          rw (found, mark_appended) (has_client-same_clients n j a m _ s s found refl refl)
    ]

    pub append_markdown-clients :
        (n ws markdown user : Text) (s : Manager D W) (j a : Text)
        → has_client j a (append_markdown env jobs n ws markdown user s).1 ≡ has_client j a s
    unfolding append_markdown
    append_markdown-clients n ws markdown user s j a =
        let P = λ (t : Manager D W). has_client j a t ≡ has_client j a s in
        >>=-keeps P (get_or_create_doc env n ws) _ s (has_client-get_or_create_doc env n j a ws s)
          λ doc t h.
            >>=-keeps P (lift (append_markdown_to_yjs_doc env doc markdown)) _ t h λ appended u k.
              >>=-keeps P (flush_doc_locked env jobs n (some appended.markdown)) _
                (mark_appended env jobs n appended.doc user u)
                (flush_doc_locked-clients n (some appended.markdown) _ j a
                  ∙ mark_appended-clients n appended.doc user u j a
                  ∙ k)
                (λ _ _ l. l)

  pub cleanup_node-NoNewClients :
      (n : Text) (s : Manager D W) → NoNewClients s (cleanup_node env n s).1
  unfolding cleanup_node
  cleanup_node-NoNewClients n s j a h = elim (Option-cases (Dict.get n s.docs)) [
    | inl absent ↦ ground (arith, has_client-world j a (delete_from_redis env n s.world).1 s)
    | inr (m, found) ↦
        let t = destroy_doc n m s in
        ground (
          arith,
          has_client-world j a (delete_from_redis env n t.world).1 t,
          destroy_doc-NoNewClients n m s j a,
        )
  ]

  handle_flush_error-NoNewClients :
      (n : Text) (fault : Fault) (s : Manager D W)
      → NoNewClients s (handle_flush_error env n fault s).1
  unfolding handle_flush_error
  handle_flush_error-NoNewClients n (node_gone gone) s =
      catch-keeps (NoNewClients s) (cleanup_node env n) (λ _. pure tt) s
        (cleanup_node-NoNewClients n s) (λ _ _ h. h)
  handle_flush_error-NoNewClients n _ s = λ j a h. h

  module _ (jobs : JsonCodec EmbedJob) where
    pub background_flush-NoNewClients :
        (n : Text) (s : Manager D W) → NoNewClients s (background_flush env jobs n s).1
    unfolding background_flush
    background_flush-NoNewClients n s =
        catch-keeps (NoNewClients s) (flush_doc_locked env jobs n none >> pure tt)
          (handle_flush_error env n) s
          (>>=-keeps (NoNewClients s) (flush_doc_locked env jobs n none) (λ _. pure tt) s
            (λ j a h. rw (flush_doc_locked-clients jobs n none s j a) at h) (λ _ _ h. h))
          (λ fault t h j a k. h j a (handle_flush_error-NoNewClients n fault t j a k))

    flush_each-NoNewClients :
        (nodes : List Text) (s t : Manager D W)
        → NoNewClients s t
        → NoNewClients s (flush_each env jobs nodes t).1
    unfolding flush_each
    flush_each-NoNewClients [] s t h = h
    flush_each-NoNewClients (n ∷ rest) s t h =
        >>=-keeps (NoNewClients s) (background_flush env jobs n) _ t
          (λ j a k. h j a (background_flush-NoNewClients n t j a k))
          (λ _ u. flush_each-NoNewClients rest s u)

    pub flush_all-NoNewClients : (s : Manager D W) → NoNewClients s (flush_all env jobs s).1
    unfolding flush_all
    flush_all-NoNewClients s = flush_each-NoNewClients (Dict.keys s.docs) s s (λ j a h. h)
