-- ===== src/Yjs/Flush/Outcome.antt =====
-- What a flush leaves in memory, when it succeeds and when it fails.
use aideep_websocket.Common.{
  Text, Bytes, ◌≡◌, Option, none, some, ok, err, Fault, arith, Option-cases, Result-cases, inl, inr,
  false, text_eq_iff,
}
use aideep_websocket.Common.Dict
use aideep_websocket.Common.Dict.{get-insert_self, insert-insert}
use aideep_websocket.Env.{Env, JsonCodec}
use aideep_websocket.Env.Database.{Persisted}
use aideep_websocket.Yjs.Managed.{
  enqueue_embed_job, ManagedDoc, Manager, EmbedJob, clear_timeout, put_doc,
}
use aideep_websocket.Yjs.Flush.{
  Plan, Pending, up_to_date, write, begin, save, commit, finish, flush_doc_locked, saved_doc,
  enqueue_if_edited,
}

-- The document `m` as a successful flush leaves it: what was written is on record, no save is due,
-- and its text, its clients, its workspace and its idle timer are as before.
abbrev pub IsSavedAs :
    {D E W : Type 0} → Env D E W → ManagedDoc D → Persisted → Option (ManagedDoc D) → Type 0
IsSavedAs env m p none = ⊥
IsSavedAs env m p (some m') =
    (m'.last_saved_state_vector ≡ some (env.crdt.encode_state_vector m.doc))
    × (m'.last_persisted ≡ some p)
    × (m'.save_timer ≡ none)
    × (m'.doc ≡ m.doc)
    × (m'.clients ≡ m.clients)
    × (m'.workspace_id ≡ m.workspace_id)
    × (m'.idle_timer ≡ m.idle_timer)

-- The document `m` as a failed flush leaves it: no save is on record that was not before.
abbrev pub IsUnsavedAs : {D : Type 0} → ManagedDoc D → Option (ManagedDoc D) → Type 0
IsUnsavedAs m none = ⊥
IsUnsavedAs m (some m') =
    (m'.last_saved_state_vector ≡ m.last_saved_state_vector)
    × (m'.last_persisted ≡ m.last_persisted)
    × (m'.save_timer ≡ none)
    × (m'.doc ≡ m.doc)
    × (m'.clients ≡ m.clients)
    × (m'.last_editor_user_id ≡ m.last_editor_user_id)

module _ {D E W : Type 0} (env : Env D E W) (node_id : Text) where
  pub begin-write :
      (known : Option Text) (s s' : Manager D W) (m : ManagedDoc D) (plan : Plan)
      → Dict.get node_id s.docs ≡ some m
      → begin env node_id known s ≡ (ok (write plan), s')
      → (Dict.get node_id s'.docs ≡ some (record m { save_timer = none }))
        × (plan.state_vector ≡ env.crdt.encode_state_vector m.doc)
        × (plan.state ≡ env.crdt.encode_state_as_update m.doc)
  unfolding begin put_doc
  begin-write known s s' m plan found e = ground (
    arith,
    get-insert_self node_id (record m { save_timer = none }) (clear_timeout m.save_timer s).docs,
  )

  pub begin-up_to_date :
      (known : Option Text) (s s' : Manager D W) (m : ManagedDoc D) (state : Bytes) (p : Persisted)
      → Dict.get node_id s.docs ≡ some m
      → begin env node_id known s ≡ (ok (up_to_date state p), s')
      → (Dict.get node_id s'.docs ≡ some (record m { save_timer = none; dirty_for_embed = false }))
        × (m.last_persisted ≡ some p)
        × (m.last_saved_state_vector ≡ some (env.crdt.encode_state_vector m.doc))
        × (state ≡ env.crdt.encode_state_as_update m.doc)
        × (s'.world ≡ s.world)
  unfolding begin put_doc clear_timeout
  begin-up_to_date known s s' m state p found e = elim (Option-cases m.last_saved_state_vector) [
    | inl absent ↦ ground arith
    | inr (v, present) ↦ ground (
      arith,
      text_eq_iff v (env.crdt.encode_state_vector m.doc),
      get-insert_self node_id (record m { save_timer = none; dirty_for_embed = false })
          (Dict.insert node_id (record m { save_timer = none }) s.docs),
    )
  ]

  pub begin-err :
      (known : Option Text) (s s' : Manager D W) (m : ManagedDoc D) (e : Fault)
      → Dict.get node_id s.docs ≡ some m
      → begin env node_id known s ≡ (err e, s')
      → Dict.get node_id s'.docs ≡ some (record m { save_timer = none })
  unfolding begin put_doc
  begin-err known s s' m e found h = ground (
    arith,
    get-insert_self node_id (record m { save_timer = none }) (clear_timeout m.save_timer s).docs,
  )

  module _ (jobs : JsonCodec EmbedJob) where
    pub commit-IsSavedAs :
        (plan : Plan) (p q : Persisted) (s s' : Manager D W) (m : ManagedDoc D)
        → Dict.get node_id s.docs ≡ some m
        → m.save_timer ≡ none
        → plan.state_vector ≡ env.crdt.encode_state_vector m.doc
        → commit env jobs node_id plan p s ≡ (ok q, s')
        → IsSavedAs env m q (Dict.get node_id s'.docs)
    unfolding commit saved_doc put_doc
    commit-IsSavedAs plan p q s s' m found idle sv e =
        ground (arith, get-insert_self node_id (saved_doc plan.state_vector p m) s.docs)

    finish-IsSavedAs :
        (pending : Pending) (known : Option Text) (s t s' : Manager D W) (m : ManagedDoc D)
        (p : Persisted)
        → Dict.get node_id s.docs ≡ some m
        → begin env node_id known s ≡ (ok pending, t)
        → finish env jobs node_id pending t ≡ (ok p, s')
        → IsSavedAs env m p (Dict.get node_id s'.docs)
    unfolding finish
    finish-IsSavedAs (up_to_date state q) known s t s' m p found e h =
        ground (arith, begin-up_to_date known s t m state q found e)
    finish-IsSavedAs (write plan) known s t s' m p found e h =
        let after : Manager D W = record t { world = (save env node_id plan t.world).1 } in
        elim (Result-cases (save env node_id plan t.world).0) [
          | inr (fault, failed) ↦ ground arith
          | inl (q, saved) ↦ ground (
            arith,
            begin-write known s t m plan found e,
            commit-IsSavedAs plan q p after s' (record m { save_timer = none }),
          )
        ]

    -- A flush of a document in memory that succeeds leaves the document in memory with the state
    -- vector that it had on record as saved, the returned version and date on record as the last
    -- save, no save timer, and its text, its clients, its workspace and its idle timer as they
    -- were.
    pub flush_doc_locked-IsSavedAs :
        (known : Option Text) (s s' : Manager D W) (m : ManagedDoc D) (p : Persisted)
        → Dict.get node_id s.docs ≡ some m
        → flush_doc_locked env jobs node_id known s ≡ (ok p, s')
        → IsSavedAs env m p (Dict.get node_id s'.docs)
    unfolding flush_doc_locked
    flush_doc_locked-IsSavedAs known s s' m p found h =
        let t = (begin env node_id known s).1 in
        elim (Result-cases (begin env node_id known s).0) [
          | inr (fault, failed) ↦ ground arith
          | inl (pending, begun) ↦ ground (arith, finish-IsSavedAs pending known s t s' m p found)
        ]

    finish-IsUnsavedAs :
        (pending : Pending) (known : Option Text) (s t s' : Manager D W) (m : ManagedDoc D)
        (fault : Fault)
        → Dict.get node_id s.docs ≡ some m
        → begin env node_id known s ≡ (ok pending, t)
        → finish env jobs node_id pending t ≡ (err fault, s')
        → IsUnsavedAs m (Dict.get node_id s'.docs)
    unfolding finish commit enqueue_if_edited enqueue_embed_job
    finish-IsUnsavedAs (up_to_date state q) known s t s' m fault found e h =
        ground (arith, begin-up_to_date known s t m state q found e)
    finish-IsUnsavedAs (write plan) known s t s' m fault found e h =
        ground (arith, begin-write known s t m plan found e)

    -- A flush of a document in memory that fails leaves the document in memory with the last saved
    -- state vector and the last saved version that it had on record, no save timer, and its text,
    -- its clients and its last editor as they were.
    pub flush_doc_locked-IsUnsavedAs :
        (known : Option Text) (s s' : Manager D W) (m : ManagedDoc D) (fault : Fault)
        → Dict.get node_id s.docs ≡ some m
        → flush_doc_locked env jobs node_id known s ≡ (err fault, s')
        → IsUnsavedAs m (Dict.get node_id s'.docs)
    unfolding flush_doc_locked
    flush_doc_locked-IsUnsavedAs known s s' m fault found h =
        let t = (begin env node_id known s).1 in
        elim (Result-cases (begin env node_id known s).0) [
          | inr (failure, failed) ↦ ground (arith, begin-err known s t m failure found)
          | inl (pending, begun) ↦
              ground (arith, finish-IsUnsavedAs pending known s t s' m fault found)
        ]
