-- ===== src/Examples/Reloads.antt =====
-- The flush of a document, its removal from memory, and the load of it.
use aideep_websocket.Common.{Text, codes, ◌≡◌, refl, false, none, [], ◌∷◌, ok, arith, text_eq_iff}
use aideep_websocket.Common.Dict.{get-insert_self, get-remove}
use aideep_websocket.Env.Database.{editor}
use aideep_websocket.RedisKeys.{yjs_doc}
use aideep_websocket.Yjs.Managed.{ManagedDoc, Manager}
use aideep_websocket.Yjs.Flush.{flush_doc_locked}
use aideep_websocket.Yjs.Lifecycle.{get_or_create_doc}
use aideep_websocket.Yjs.Stored.{IsRedisLike}
use aideep_websocket.Yjs.Stored.Reload.{flush_doc_locked-get_or_create_doc}
use aideep_websocket.Examples.World.{World, env, jobs, node, workspace}
use aideep_websocket.Examples.Opened.{documents}

abbrev opened : ManagedDoc Text
opened = record {
  doc = codes "ab";
  clients = [];
  workspace_id = workspace;
  save_timer = none;
  idle_timer = none;
  last_activity = 0;
  dirty_for_embed = false;
  last_editor_user_id = none;
  last_saved_state_vector = none;
  last_persisted = none;
}

abbrev before : Manager Text World
before = record {
  docs = (node, opened) ∷ [];
  timers = [];
  next_timer = 0;
  flushes = [];
  world = [];
}

abbrev saved : Manager Text World
saved = (flush_doc_locked (env editor) jobs node none before).1

abbrev dropped : Manager Text World
dropped = record saved { docs = [] }

env-IsRedisLike : (key text : Text) → IsRedisLike (env editor) key text
env-IsRedisLike key text = record {
  sets = λ ttl w w' e. ground (arith, get-insert_self key text w);
  deletes = λ other differs w h. ground (arith, get-remove other key w, text_eq_iff other key);
  pushes = λ list value w h. h;
  finds_node = λ n w h. h;
  updates_node = λ n change w h. h;
  transacts = λ body keeps w h. keeps w h;
  quiet = record {
    finds_files = λ test w h. h;
    updates_files = λ test change w h. h;
    finds_attachments = λ test w h. h;
    creates_attachments = λ rows w h. h;
    deletes_attachments = λ test w h. h;
    groups_attachments = λ test w h. h;
  };
}

flush_doc_locked-get_or_create_doc_example :
    (get_or_create_doc (env editor) node workspace dropped).0 ≡ ok (codes "ab")
unfolding documents
flush_doc_locked-get_or_create_doc_example =
    flush_doc_locked-get_or_create_doc (env editor) node jobs none before saved dropped opened
      (record { version = 4; updated_at = 0 }) (codes "ab") workspace
      (env-IsRedisLike (yjs_doc node) (codes "ab")) refl refl refl refl refl refl refl
