-- ===== src/Ws/Presence.antt =====
-- src/domain/ws/service/presence.service.ts and src/global/yjs/yjs-ws-awareness.service.ts: who is
-- in a workspace, and the last awareness of its clients, in Redis.
pub mod Table
pub mod Cached
use aideep_websocket.Common.{
  ℕ, Text, Bytes, Option, none, some, List, [], ◌∷◌, Result, ok, err, Io, pure, lift, catch, ◌>>=◌,
  ◌>>◌, is_empty, if◌then◌else◌,
}
use aideep_websocket.Common.Dict
use aideep_websocket.RedisKeys
use aideep_websocket.Ws.Event.{PresenceMember}
use aideep_websocket.App.{App}

abbrev pub ws_presence_ttl_sec : ℕ
ws_presence_ttl_sec = 86400

abbrev pub ws_awareness_ttl_sec : ℕ
ws_awareness_ttl_sec = 30

module _ {D E W : Type 0} (app : App D E W) where
  unfoldable pub upsert_presence : Text → PresenceMember → Io W (Unit {0})
  upsert_presence workspace_id member = do
    app.env.redis.h_set (RedisKeys.ws_presence workspace_id) member.user_id
        (app.members.stringify member)
    app.env.redis.expire (RedisKeys.ws_presence workspace_id) ws_presence_ttl_sec

  unfoldable pub remove_presence : Text → Text → Io W (Unit {0})
  remove_presence workspace_id user_id =
      app.env.redis.h_del (RedisKeys.ws_presence workspace_id) user_id

  unfoldable pub parse_members : List Text → Result (List PresenceMember)
  parse_members [] = ok []
  parse_members (text ∷ texts) = elim (app.members.parse text) [
    | err e ↦ err e
    | ok member ↦ elim (parse_members texts) [ err e ↦ err e | ok members ↦ ok (member ∷ members) ]
  ]

  unfoldable pub list_presence : Text → Io W (List PresenceMember)
  list_presence workspace_id = do
    raw ← app.env.redis.h_get_all (RedisKeys.ws_presence workspace_id)
    lift (parse_members (Dict.values raw))

  -- A failure to cache is only logged.
  unfoldable pub cache_awareness : Text → Bytes → Io W (Unit {0})
  cache_awareness workspace_id bytes =
      catch
        (app.env.redis.set (RedisKeys.yjs_ws_awareness workspace_id) (app.env.base64.encode bytes)
          ws_awareness_ttl_sec)
        (λ _. pure tt)

  unfoldable pub get_cached_awareness : Text → Io W (Option Bytes)
  get_cached_awareness workspace_id =
      catch
        (do
          found ← app.env.redis.get (RedisKeys.yjs_ws_awareness workspace_id)
          elim found [
            | none ↦ pure none
            | some text ↦
                if is_empty text then pure none else pure (some (app.env.base64.decode text))
          ])
        (λ _. pure none)

  unfoldable pub delete_awareness : Text → Io W (Unit {0})
  delete_awareness workspace_id =
      catch (app.env.redis.del (RedisKeys.yjs_ws_awareness workspace_id)) (λ _. pure tt)
