-- ===== src/RedisKeys.antt =====
-- src/global/redis/redis.keys.ts: the keys of the shared Redis database.
pub mod Distinct
use aideep_websocket.Common.{Text, codes, Option, none, some, ◌++◌}

unfoldable pub workspace_sync : Text → Text
workspace_sync workspace_id = codes "workspace:sync:" ++ workspace_id

unfoldable pub yjs_doc : Text → Text
yjs_doc node_id = codes "yjs:doc:" ++ node_id

unfoldable pub yjs_ws_awareness : Text → Text
yjs_ws_awareness workspace_id = codes "yjs:ws:awareness:" ++ workspace_id

unfoldable pub node_content_operation : Text → Text → Text → Text → Text
node_content_operation workspace_id node_id actor_id key =
    codes "node:content-op:"
    ++ (workspace_id ++ (codes ":" ++ (node_id ++ (codes ":" ++ (actor_id ++ (codes ":" ++ key))))))

unfoldable pub ws_presence : Text → Text
ws_presence workspace_id = codes "ws:presence:" ++ workspace_id

unfoldable pub embed_jobs_queue : Text
embed_jobs_queue = codes "embed_jobs"

-- A template writes null as the word.
abbrev pub text_or_null : Option Text → Text
text_or_null none = codes "null"
text_or_null (some text) = text

unfoldable pub blacklist : Option Text → Text
blacklist access_token = codes "blacklist:" ++ text_or_null access_token

unfoldable pub master_token : Text → Text
master_token user_id = codes "masterToken:" ++ user_id
