-- ===== src/Yjs/Flush/Lost.antt =====
-- src/global/yjs/yjs-doc-manager.ts: what an eviction does to a document that could not be saved.
use aideep_websocket.Common.{
  ℕ, Text, ◌≡◌, refl, true, Option, none, some, Option-cases, inl, inr, err, Fault, is_empty, arith,
}
use aideep_websocket.Common.Dict
use aideep_websocket.Env.{Env, JsonCodec}
use aideep_websocket.Yjs.Managed.{
  ManagedDoc, Manager, Timer, evict, EmbedJob, drop_doc, clear_timeout,
}
use aideep_websocket.Yjs.Flush.{flush_doc_locked}
use aideep_websocket.Yjs.Flush.Outcome.{flush_doc_locked-IsUnsavedAs}
use aideep_websocket.Yjs.Lifecycle.{destroy_doc, evict_doc, run_action, fire}

module _ {D W : Type 0} where
  clear_timeout-quiet :
      (handle : Option ℕ) (s : Manager D W)
      → ((clear_timeout handle s).world ≡ s.world) × ((clear_timeout handle s).flushes ≡ s.flushes)
  unfolding clear_timeout
  clear_timeout-quiet none s = (refl, refl)
  clear_timeout-quiet (some k) s = (refl, refl)

  destroy_doc-quiet :
      (n : Text) (m : ManagedDoc D) (s : Manager D W)
      → let t = destroy_doc n m s in
        (Dict.get n t.docs ≡ none) × (t.world ≡ s.world) × (t.flushes ≡ s.flushes)
  unfolding destroy_doc drop_doc
  destroy_doc-quiet n m s =
      let u = clear_timeout m.save_timer s in
      let v = clear_timeout m.idle_timer u in
      (
        Dict.get-remove_self n v.docs,
        ground (arith, clear_timeout-quiet m.save_timer s, clear_timeout-quiet m.idle_timer u),
        ground (arith, clear_timeout-quiet m.save_timer s, clear_timeout-quiet m.idle_timer u),
      )

  fire-evicts :
      (timer : Timer) (n : Text) (s : Manager D W) (m : ManagedDoc D)
      → timer.action ≡ evict n
      → Dict.get n s.docs ≡ some m
      → is_empty m.clients ≡ true
      → let t = fire timer s in
        (Dict.get n t.docs ≡ none) × (t.world ≡ s.world) × (t.flushes ≡ s.flushes)
  unfolding fire run_action evict_doc clear_timeout
  fire-evicts timer n s m idle found alone =
      let s₁ = clear_timeout (some timer.handle) s in
      rw (idle, run_action, evict_doc, found, alone) (destroy_doc-quiet n m s₁)

module _ {D E W : Type 0} (env : Env D E W) (jobs : JsonCodec EmbedJob) where
  -- Where a flush of a document without clients has failed and an idle timer of that document fires
  -- next, the document is gone from memory, nothing has been written to the outside world since the
  -- failure, and no other flush is started.
  pub flush_doc_locked-fire :
      (timer : Timer) (n : Text) (known : Option Text) (s s' : Manager D W) (m : ManagedDoc D)
      (fault : Fault)
      → Dict.get n s.docs ≡ some m
      → is_empty m.clients ≡ true
      → flush_doc_locked env jobs n known s ≡ (err fault, s')
      → timer.action ≡ evict n
      → let t = fire timer s' in
        (Dict.get n t.docs ≡ none) × (t.world ≡ s'.world) × (t.flushes ≡ s'.flushes)
  flush_doc_locked-fire timer n known s s' m fault found alone failed idle =
      elim (Option-cases (Dict.get n s'.docs)) [
        | inl absent ↦
            ground (arith, flush_doc_locked-IsUnsavedAs env n jobs known s s' m fault found failed)
        | inr (m', kept) ↦ fire-evicts timer n s' m' idle kept (
            ground (arith, flush_doc_locked-IsUnsavedAs env n jobs known s s' m fault found failed))
      ]
