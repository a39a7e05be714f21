-- ===== src/Ws/Presence/Cached.antt =====
-- src/global/yjs/yjs-ws-awareness.service.ts: what a client that joins late is given.
use aideep_websocket.Common.{
  Text, Bytes, ◌≡◌, refl, ap, ◌∙◌, sym, false, some, List, [], ◌∷◌, ◌++◌, handle, ok, err, Result,
  Io, pure, ◌>>◌, is_empty,
}
use aideep_websocket.RedisKeys.{yjs_ws_awareness}
use aideep_websocket.App.{App}
use aideep_websocket.Ws.Presence.{cache_awareness, get_cached_awareness, ws_awareness_ttl_sec}

module _ {D E W : Type 0} (app : App D E W) where
  -- What Redis says of SET and GET for one key, while the value lives.
  pub record IsKept (workspace_id : Text) : Type 0 where
    pub sets :
        (text : Text) (w w' : W)
        → app.env.redis.set (yjs_ws_awareness workspace_id) text ws_awareness_ttl_sec w
          ≡ (ok tt, w')
        → app.env.redis.get (yjs_ws_awareness workspace_id) w' ≡ (ok (some text), w')

  -- The awareness of several clients, in the order in which it came in.
  abbrev pub cache_all : Text → List Bytes → Io W (Unit {0})
  unfolding cache_awareness
  cache_all workspace_id [] = pure tt
  cache_all workspace_id (bytes ∷ more) =
      cache_awareness app workspace_id bytes >> cache_all workspace_id more

  handled : (r : Result (Unit {0})) (w : W) → handle r (λ _. pure tt) w ≡ (ok tt, w)
  handled (ok a) w = refl
  handled (err e) w = refl

  -- A failure to cache does not reach the caller.
  cache_awareness_ok :
      (workspace_id : Text) (bytes : Bytes) (w : W)
      → cache_awareness app workspace_id bytes w ≡ (
        ok tt,
        (app.env.redis.set
            (yjs_ws_awareness workspace_id)
            (app.env.base64.encode bytes)
            ws_awareness_ttl_sec
            w).1,
      )
  unfolding cache_awareness
  cache_awareness_ok ws bytes w = handled _ _

  next :
      (workspace_id : Text) (bytes : Bytes) (more : List Bytes) (w : W)
      → cache_all workspace_id (bytes ∷ more) w
        ≡ cache_all workspace_id more
            (app.env.redis.set
              (yjs_ws_awareness workspace_id)
              (app.env.base64.encode bytes)
              ws_awareness_ttl_sec
              w).1
  unfolding cache_all
  next ws bytes more w = rw (cache_awareness_ok ws bytes w) refl

  cache_awareness_last :
      (workspace_id : Text) (last : Bytes) (before : List Bytes) (w w' : W)
      → cache_awareness app workspace_id last (cache_all workspace_id before w).1 ≡ (ok tt, w')
      → cache_all workspace_id (before ++ last ∷ []) w ≡ (ok tt, w')
  unfolding cache_all
  cache_awareness_last ws last [] w w' e = rw e refl
  cache_awareness_last ws last (bytes ∷ before) w w' e =
      next ws bytes (before ++ last ∷ []) w
      ∙ cache_awareness_last ws last before _ w'
          (sym (ap (λ p. cache_awareness app ws last p.1) (next ws bytes before w)) ∙ e)

  -- Let a write of the awareness of a workspace to Redis be readable, and let base64 give the last
  -- of several messages back from a text that is not empty. If its write succeeds, then the
  -- messages are all cached without an error, whichever of the other writes fail, and a client that
  -- joins is given the last message alone.
  pub get_cached_awareness-cache_awareness :
      (workspace_id : Text) (laws : IsKept workspace_id) (before : List Bytes) (last : Bytes)
      (w w' : W)
      → app.env.base64.decode (app.env.base64.encode last) ≡ last
      → is_empty (app.env.base64.encode last) ≡ false
      → app.env.redis.set
          (yjs_ws_awareness workspace_id)
          (app.env.base64.encode last)
          ws_awareness_ttl_sec
          (cache_all workspace_id before w).1
        ≡ (ok tt, w')
      → (cache_all workspace_id (before ++ last ∷ []) w ≡ (ok tt, w'))
        × (get_cached_awareness app workspace_id w' ≡ (ok (some last), w'))
  unfolding cache_awareness get_cached_awareness
  get_cached_awareness-cache_awareness ws laws before last w w' round full set = (
    cache_awareness_last ws last before w w' (rw set refl),
    rw (laws.sets _ _ w' set, full, round) refl,
  )
