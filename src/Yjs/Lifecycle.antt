-- ===== src/Yjs/Lifecycle.antt =====
-- src/global/yjs/yjs-doc-manager.ts: how a document comes into memory and leaves it.
use aideep_websocket.Common.{
  ℕ, Text, Bytes, false, Option, none, some, [], ◌∷◌, ◌++◌, Result, ok, err, Io, pure, lift, ◌>>=◌,
  is_empty, if◌then◌else◌,
}
use aideep_websocket.Common.Dict
use aideep_websocket.Common.Items
use aideep_websocket.Env.{Env}
use aideep_websocket.Yjs.CrdtService.{Loaded, load_from_redis, load_from_db, delete_from_redis}
use aideep_websocket.Yjs.Managed.{
  ManagedDoc, Manager, Timer, TimerAction, save, evict, clear_timeout, put_doc, drop_doc, on_world,
  without_handle,
}

-- A stored state, and the workspace that it belongs to: the row's, if the state is the row's.
abbrev pub from_row : Text → Option Loaded → Option Bytes × Text
from_row workspace_id none = (none, workspace_id)
from_row workspace_id (some loaded) = elim loaded.state [
  | none ↦ (none, workspace_id)
  | some state ↦ (some state, loaded.workspace_id)
]

module _ {D W : Type 0} where
  -- The idle timer stops when the document is wanted again.
  unfoldable pub wake : Text → ManagedDoc D → Manager D W → Manager D W
  wake node_id managed s =
      put_doc node_id (record managed { idle_timer = none }) (clear_timeout managed.idle_timer s)

  unfoldable pub get_client_count : Text → Manager D W → ℕ
  get_client_count node_id s = elim (Dict.get node_id s.docs) [
    | none ↦ 0
    | some managed ↦ Items.size managed.clients
  ]

  unfoldable pub get_doc : Text → Manager D W → Option D
  get_doc node_id s = elim (Dict.get node_id s.docs) [
    | none ↦ none
    | some managed ↦ some managed.doc
  ]

  -- The clearing of both timers and the removal that `evictDoc` and `cleanupNode` share.
  unfoldable pub destroy_doc : Text → ManagedDoc D → Manager D W → Manager D W
  destroy_doc node_id managed s =
      drop_doc node_id (clear_timeout managed.idle_timer (clear_timeout managed.save_timer s))

  unfoldable pub evict_doc : Text → Manager D W → Manager D W
  unfolding destroy_doc
  evict_doc node_id s = elim (Dict.get node_id s.docs) [
    | none ↦ s
    | some managed ↦ if is_empty managed.clients then destroy_doc node_id managed s else s
  ]

  -- The callback of a timer whose time has come.
  unfoldable pub run_action : TimerAction → Manager D W → Manager D W
  run_action (save node_id) s = record s { flushes = s.flushes ++ node_id ∷ [] }
  run_action (evict node_id) s = evict_doc node_id s

  unfoldable pub fire : Timer → Manager D W → Manager D W
  unfolding run_action
  fire timer s =
      run_action timer.action (record s { timers = without_handle timer.handle s.timers })

module _ {D E W : Type 0} (env : Env D E W) where
  abbrev pub now_of : Manager D W → ℕ
  now_of s = env.date_now s.world

  unfoldable pub find_state : Text → Text → Io W (Option Bytes × Text)
  find_state node_id workspace_id = do
    cached ← load_from_redis env node_id
    elim cached [
      | some state ↦ pure (some state, workspace_id)
      | none ↦ do loaded ← load_from_db env node_id; pure (from_row workspace_id loaded)
    ]

  -- The new document, with the stored state applied and its root type defined.
  unfoldable pub build_doc : Option Bytes → Result D
  build_doc none = ok (env.crdt.get_root env.crdt.new_doc)
  build_doc (some state) = elim (env.crdt.apply_update env.crdt.new_doc state) [
    | err e ↦ err e
    | ok doc ↦ ok (env.crdt.get_root doc)
  ]

  unfoldable pub register_doc : Text → Text → D → Manager D W → Manager D W
  register_doc node_id workspace_id doc s =
      put_doc node_id
        (record {
          doc = doc;
          clients = [];
          workspace_id = workspace_id;
          save_timer = none;
          idle_timer = none;
          last_activity = now_of s;
          dirty_for_embed = false;
          last_editor_user_id = none;
          last_saved_state_vector = none;
          last_persisted = none;
        })
        s

  unfoldable pub load_doc : Text → Text → Io (Manager D W) D
  load_doc node_id workspace_id = do
    (state, owner) ← on_world (find_state node_id workspace_id)
    doc ← lift (build_doc state)
    λ s. (ok doc, register_doc node_id owner doc s)

  unfoldable pub get_or_create_doc : Text → Text → Io (Manager D W) D
  get_or_create_doc node_id workspace_id s = elim (Dict.get node_id s.docs) [
    | some managed ↦ (ok managed.doc, wake node_id managed s)
    | none ↦ load_doc node_id workspace_id s
  ]

  unfoldable pub cleanup_node : Text → Io (Manager D W) (Unit {0})
  cleanup_node node_id s =
      on_world (delete_from_redis env node_id)
        (elim (Dict.get node_id s.docs) [ none ↦ s | some managed ↦ destroy_doc node_id managed s ])
