-- ===== src/Yjs/Flush/Again.antt =====
-- A flush after a flush: when the row is written again, and when it is not.
use aideep_websocket.Common.{
  Text, Bytes, ◌≡◌, ◌≢◌, false, Option, some, Result, ok, err, arith, Result-cases, inl, inr,
  text_eq_refl,
}
use aideep_websocket.Common.Dict
use aideep_websocket.Common.Dict.{get-insert_self}
use aideep_websocket.Env.{Env, JsonCodec}
use aideep_websocket.Env.Database.{Persisted}
use aideep_websocket.Yjs.Managed.{ManagedDoc, Manager, EmbedJob, clear_timeout, put_doc}
use aideep_websocket.Yjs.CrdtService.{save_to_redis}
use aideep_websocket.Yjs.Flush.{
  Plan, up_to_date, write, begin, commit, finish, flush_doc_locked, saved_doc, truthy, save,
  saved_result,
}
use aideep_websocket.Yjs.Flush.Outcome.{flush_doc_locked-IsSavedAs, begin-up_to_date}

-- The answer of a flush that writes Redis only.
abbrev pub refreshed : Persisted → Result (Unit {0}) → Result Persisted
refreshed p (ok _) = ok p
refreshed p (err e) = err e

module _ {D E W : Type 0} (env : Env D E W) (jobs : JsonCodec EmbedJob) (node_id : Text) where
  -- A flush of a document whose last saved state vector is its present one, with a save on record,
  -- writes the state to Redis and does nothing else to the outside world: it answers with the
  -- version on record, or with the failure of that write.
  pub flush-unchanged :
      (known : Option Text) (s : Manager D W) (m : ManagedDoc D) (p : Persisted)
      → Dict.get node_id s.docs ≡ some m
      → m.last_persisted ≡ some p
      → m.last_saved_state_vector ≡ some (env.crdt.encode_state_vector m.doc)
      → ((flush_doc_locked env jobs node_id known s).0
          ≡ refreshed p
              (save_to_redis env node_id (env.crdt.encode_state_as_update m.doc) s.world).0)
        × ((flush_doc_locked env jobs node_id known s).1.world
            ≡ (save_to_redis env node_id (env.crdt.encode_state_as_update m.doc) s.world).1)
  unfolding flush_doc_locked begin finish put_doc clear_timeout saved_result
  flush-unchanged known s m p found persisted saved =
      ground (arith, text_eq_refl (env.crdt.encode_state_vector m.doc))

  -- If a flush of a document succeeds and the document is then edited without a change of its state
  -- vector, the next flush writes nothing but Redis: it answers with the version of the first
  -- flush, or with the failure of the Redis write.
  pub flush-edit-flush :
      (known again : Option Text) (s s' : Manager D W) (m m' : ManagedDoc D) (p : Persisted)
      (doc : D)
      → Dict.get node_id s.docs ≡ some m
      → flush_doc_locked env jobs node_id known s ≡ (ok p, s')
      → Dict.get node_id s'.docs ≡ some m'
      → env.crdt.encode_state_vector doc ≡ env.crdt.encode_state_vector m.doc
      → let edited = put_doc node_id (record m' { doc = doc }) s' in
        ((flush_doc_locked env jobs node_id again edited).0
          ≡ refreshed p
              (save_to_redis env node_id (env.crdt.encode_state_as_update doc) s'.world).0)
        × ((flush_doc_locked env jobs node_id again edited).1.world
            ≡ (save_to_redis env node_id (env.crdt.encode_state_as_update doc) s'.world).1)
  unfolding put_doc
  flush-edit-flush known again s s' m m' p doc found first kept same =
      let saved = flush_doc_locked-IsSavedAs env node_id jobs known s s' m p found first in
      ground (
        arith,
        saved,
        get-insert_self node_id (record m' { doc = doc }) s'.docs,
        flush-unchanged again
            (record s' { docs = Dict.insert node_id (record m' { doc = doc }) s'.docs })
            (record m' { doc = doc }) p,
      )

  commit-keeps_vector :
      (plan : Plan) (p q : Persisted) (t u : Manager D W) (m : ManagedDoc D)
      → Dict.get node_id t.docs ≡ some m
      → commit env jobs node_id plan p t ≡ (ok q, u)
      → Dict.get node_id u.docs ≡ some (saved_doc plan.state_vector p m)
  unfolding commit put_doc
  commit-keeps_vector plan p q t u m found e =
      ground (arith, get-insert_self node_id (saved_doc plan.state_vector p m) t.docs)

  pub finish-keeps_vector :
      (plan : Plan) (q : Persisted) (t u : Manager D W) (m : ManagedDoc D)
      → Dict.get node_id t.docs ≡ some m
      → finish env jobs node_id (write plan) t ≡ (ok q, u)
      → (p : Persisted) × (Dict.get node_id u.docs ≡ some (saved_doc plan.state_vector p m))
  unfolding finish
  finish-keeps_vector plan q t u m found e =
      let after : Manager D W = record t { world = (save env node_id plan t.world).1 } in
      elim (Result-cases (save env node_id plan t.world).0) [
        | inr (fault, failed) ↦ ground arith
        | inl (p, saved) ↦ (p, ground (arith, commit-keeps_vector plan p q after u m))
      ]

  -- If a document has another state vector than the one that a running flush is writing, and the
  -- rest of that flush succeeds, then the next flush does not find the document up to date.
  pub edit_during_flush-saved_later :
      (again : Option Text) (plan : Plan) (q r : Persisted) (t u v : Manager D W) (m : ManagedDoc D)
      (state : Bytes)
      → Dict.get node_id t.docs ≡ some m
      → env.crdt.encode_state_vector m.doc ≢ plan.state_vector
      → finish env jobs node_id (write plan) t ≡ (ok q, u)
      → begin env node_id again u ≢ (ok (up_to_date state r), v)
  unfolding saved_doc
  edit_during_flush-saved_later again plan q r t u v m state found edited done skip =
      let (p, left) = finish-keeps_vector plan q t u m found done in
      ground (
        arith,
        begin-up_to_date env node_id again u v (saved_doc plan.state_vector p m) state r left skip,
        edited,
      )

  -- A flush that succeeds on a document with a last editor clears the flag that an embedding job is
  -- due, also where the document was edited after the flush had read it: the document keeps its
  -- text, and the flag is down.
  pub edit_during_flush-not_embedded :
      (plan : Plan) (q : Persisted) (t u : Manager D W) (m m' : ManagedDoc D) (user : Text)
      → Dict.get node_id t.docs ≡ some m
      → truthy m.last_editor_user_id ≡ some user
      → finish env jobs node_id (write plan) t ≡ (ok q, u)
      → Dict.get node_id u.docs ≡ some m'
      → (m'.doc ≡ m.doc) × (m'.dirty_for_embed ≡ false)
  unfolding saved_doc
  edit_during_flush-not_embedded plan q t u m m' user found editor done left =
      let (p, kept) = finish-keeps_vector plan q t u m found done in ground arith
