-- ===== src/Yjs/Stored/Reload.antt =====
-- src/global/yjs/yjs-doc-manager.ts: a document that was flushed and is no longer in memory comes back
-- with the state that was flushed.
use aideep_websocket.Common.{
  Text, Bytes, ◌≡◌, false, Option, none, some, Option-cases, Result-cases, inl, inr, ok, pure,
  >>=-ok, >>=-keeps, catch-keeps, is_empty, arith,
}
use aideep_websocket.Common.Dict
use aideep_websocket.Env.{Env, JsonCodec}
use aideep_websocket.Env.Database.{Persisted}
use aideep_websocket.RedisKeys.{yjs_doc}
use aideep_websocket.Yjs.Managed.{
  ManagedDoc, Manager, EmbedJob, enqueue_embed_job, put_doc, on_world,
}
use aideep_websocket.Yjs.CrdtService.{save_to_redis, load_from_redis}
use aideep_websocket.Yjs.Lifecycle.{find_state, build_doc, load_doc, get_or_create_doc}
use aideep_websocket.Yjs.Flush.{
  Plan, Pending, up_to_date, write, begin, commit, finish, flush_doc_locked, enqueue_if_edited,
}
use aideep_websocket.Yjs.Flush
use aideep_websocket.Yjs.Flush.Outcome.{begin-write, begin-up_to_date}
use aideep_websocket.Yjs.Stored.{Holds, IsApart, IsRedisLike}
use aideep_websocket.Yjs.Stored.Saves.{save_to_db-IsApart}

module _ {D E W : Type 0} (env : Env D E W) (n : Text) where
  -- The text of a document's state in Redis.
  abbrev pub text_of : D → Text
  text_of doc = env.base64.encode (env.crdt.encode_state_as_update doc)

  save_to_redis-Holds :
      (state : Bytes) (w w' : W)
      → IsRedisLike env (yjs_doc n) (env.base64.encode state)
      → save_to_redis env n state w ≡ (ok tt, w')
      → Holds env (yjs_doc n) (env.base64.encode state) w'
  unfolding save_to_redis
  save_to_redis-Holds state w w' laws e = laws.sets _ w w' e

  save-Holds :
      (plan : Plan) (p : Persisted) (w w' : W)
      → IsRedisLike env (yjs_doc n) (env.base64.encode plan.state)
      → Flush.save env n plan w ≡ (ok p, w')
      → Holds env (yjs_doc n) (env.base64.encode plan.state) w'
  unfolding Flush.save
  save-Holds plan p w w' laws e = elim (Result-cases plan.attachment_content) [
    | inr (fault, broken) ↦ ground arith
    | inl (content, extracted) ↦ elim (Result-cases (save_to_redis env n plan.state w).0) [
      | inr (fault, down) ↦ ground arith
      | inl (_, done) ↦ ground (
        arith,
        save_to_db-IsApart env n (env.base64.encode plan.state) laws n plan.state plan.markdown_text
            plan.workspace_id content (save_to_redis env n plan.state w).1
            (save_to_redis-Holds plan.state w (save_to_redis env n plan.state w).1 laws
              (ground arith)),
      )
    ]
  ]

  -- The state that a flush writes.
  abbrev state_of : Pending → Bytes
  state_of (up_to_date state p) = state
  state_of (write plan) = plan.state

  begin-state :
      (known : Option Text) (s s' : Manager D W) (m : ManagedDoc D) (pending : Pending)
      → Dict.get n s.docs ≡ some m
      → begin env n known s ≡ (ok pending, s')
      → state_of pending ≡ env.crdt.encode_state_as_update m.doc
  begin-state known s s' m (up_to_date state p) found e =
      let (_, _, _, same, _) = begin-up_to_date env n known s s' m state p found e in same
  begin-state known s s' m (write plan) found e =
      let (_, _, same) = begin-write env n known s s' m plan found e in same

  module _ (jobs : JsonCodec EmbedJob) where
    enqueue_if_edited-IsApart :
        (text ws : Text) (editor : Option Text)
        → IsRedisLike env (yjs_doc n) text
        → IsApart env (yjs_doc n) text (enqueue_if_edited env jobs n ws editor)
    unfolding enqueue_if_edited enqueue_embed_job
    enqueue_if_edited-IsApart text ws none laws w h = h
    enqueue_if_edited-IsApart text ws (some user) laws w h =
        catch-keeps (Holds env (yjs_doc n) text) (env.redis.r_push _ _) (λ _. pure tt) w
          (laws.pushes _ _ w h) (λ _ _ k. k)

    commit-Holds :
        (text : Text) (plan : Plan) (p : Persisted) (s : Manager D W)
        → IsRedisLike env (yjs_doc n) text
        → Holds env (yjs_doc n) text s.world
        → Holds env (yjs_doc n) text (commit env jobs n plan p s).1.world
    unfolding commit put_doc
    commit-Holds text plan p s laws h = elim (Option-cases (Dict.get n s.docs)) [
      | inl absent ↦
          rw (absent, commit)
            (>>=-keeps (λ (t : Manager D W). Holds env (yjs_doc n) text t.world)
              (on_world (enqueue_if_edited env jobs n plan.workspace_id plan.editor)) (λ _. pure p)
              s (enqueue_if_edited-IsApart text plan.workspace_id plan.editor laws s.world h)
              (λ _ _ k. k))
      | inr (m, found) ↦
          rw (found, commit)
            (>>=-keeps (λ (t : Manager D W). Holds env (yjs_doc n) text t.world)
              (on_world (enqueue_if_edited env jobs n m.workspace_id (Flush.embed_user m)))
              (λ _. pure p) (put_doc n (Flush.saved_doc plan.state_vector p m) s)
              (enqueue_if_edited-IsApart text m.workspace_id (Flush.embed_user m) laws s.world h)
              (λ _ _ k. k))
    ]

    finish-Holds :
        (pending : Pending) (p : Persisted) (s s' : Manager D W)
        → IsRedisLike env (yjs_doc n) (env.base64.encode (state_of pending))
        → finish env jobs n pending s ≡ (ok p, s')
        → Holds env (yjs_doc n) (env.base64.encode (state_of pending)) s'.world
    unfolding finish
    finish-Holds (up_to_date state q) p s s' laws e =
        let (_, t, saved, rest) = >>=-ok (on_world (save_to_redis env n state)) _ s e in
        ground (arith, save_to_redis-Holds state s.world t.world laws (ground arith))
    finish-Holds (write plan) p s s' laws e =
        let (q, t, saved, rest) = >>=-ok (on_world (Flush.save env n plan)) _ s e in
        let stored = save-Holds plan q s.world t.world laws (ground arith) in
        ground (arith, commit-Holds (env.base64.encode plan.state) plan q t laws stored)

    flush_doc_locked-Holds :
        (known : Option Text) (s s' : Manager D W) (m : ManagedDoc D) (p : Persisted)
        → IsRedisLike env (yjs_doc n) (text_of m.doc)
        → Dict.get n s.docs ≡ some m
        → flush_doc_locked env jobs n known s ≡ (ok p, s')
        → Holds env (yjs_doc n) (text_of m.doc) s'.world
    unfolding flush_doc_locked
    flush_doc_locked-Holds known s s' m p laws found e =
        let (pending, t, begun, rest) = >>=-ok (begin env n known) _ s e in
        let same = begin-state known s t m pending found begun in
        rw same at (finish-Holds pending p t s' (rw same laws) rest)

  load_from_redis-Holds :
      (state : Bytes) (w : W)
      → Holds env (yjs_doc n) (env.base64.encode state) w
      → is_empty (env.base64.encode state) ≡ false
      → env.base64.decode (env.base64.encode state) ≡ state
      → load_from_redis env n w ≡ (ok (some state), w)
  unfolding load_from_redis
  load_from_redis-Holds state w h full back = ground arith

  get_or_create_doc-Holds :
      (state : Bytes) (doc : D) (ws : Text) (s : Manager D W)
      → Holds env (yjs_doc n) (env.base64.encode state) s.world
      → is_empty (env.base64.encode state) ≡ false
      → env.base64.decode (env.base64.encode state) ≡ state
      → env.crdt.apply_update env.crdt.new_doc state ≡ ok doc
      → Dict.get n s.docs ≡ none
      → (get_or_create_doc env n ws s).0 ≡ ok (env.crdt.get_root doc)
  unfolding get_or_create_doc load_doc find_state build_doc
  get_or_create_doc-Holds state doc ws s h full back applies absent =
      ground (arith, load_from_redis-Holds state s.world h full back)

  -- Let a write of the state of the document to Redis be readable, and let the calls on the
  -- database, on other keys and on lists leave its key alone; let base64 give the state back from a
  -- text that is not empty, and let the state be an update that makes some document of an empty
  -- one. If a flush of the document succeeds, then after its removal from memory, in the world that
  -- the flush has left, the document that is loaded for its node is the one that the flushed state
  -- makes.
  pub flush_doc_locked-get_or_create_doc :
      (jobs : JsonCodec EmbedJob) (known : Option Text) (s s' t : Manager D W) (m : ManagedDoc D)
      (p : Persisted) (doc : D) (ws : Text)
      → IsRedisLike env (yjs_doc n) (text_of m.doc)
      → is_empty (text_of m.doc) ≡ false
      → env.base64.decode (text_of m.doc) ≡ env.crdt.encode_state_as_update m.doc
      → env.crdt.apply_update env.crdt.new_doc (env.crdt.encode_state_as_update m.doc) ≡ ok doc
      → Dict.get n s.docs ≡ some m
      → flush_doc_locked env jobs n known s ≡ (ok p, s')
      → Dict.get n t.docs ≡ none
      → t.world ≡ s'.world
      → (get_or_create_doc env n ws t).0 ≡ ok (env.crdt.get_root doc)
  flush_doc_locked-get_or_create_doc jobs known s s' t m p doc ws laws full back applies found
        flushed gone same =
      get_or_create_doc-Holds (env.crdt.encode_state_as_update m.doc) doc ws t
        (rw same (flush_doc_locked-Holds jobs known s s' m p laws found flushed)) full back applies
        gone
