-- ===== src/Yjs/Managed.antt =====
-- The state of `YjsDocManager` in src/global/yjs/yjs-doc-manager.ts, the timers that it sets, and
-- `EmbedQueueService` of src/global/redis/embed-queue.service.ts.
use aideep_websocket.Common.{
  ℕ, suc, Text, Bytes, Bool, Option, none, some, List, [], ◌∷◌, ◌++◌, Io, pure, catch, ◌==◌,
  if◌then◌else◌,
}
use aideep_websocket.Common.Dict
use aideep_websocket.Common.Dict.{Dict}
use aideep_websocket.Env.{Env, JsonCodec}
use aideep_websocket.Env.Database.{Persisted}
use aideep_websocket.RedisKeys

-- yjs.constants.ts, in milliseconds
abbrev pub debounce_save_ms : ℕ
debounce_save_ms = 2000

abbrev pub doc_idle_timeout_ms : ℕ
doc_idle_timeout_ms = 300000

-- interface ManagedDoc; a timer is named by its handle.
pub record ManagedDoc (D : Type 0) : Type 0 where
  pub doc : D
  pub clients : List Text
  pub workspace_id : Text
  pub save_timer : Option ℕ
  pub idle_timer : Option ℕ
  pub last_activity : ℕ
  pub dirty_for_embed : Bool
  pub last_editor_user_id : Option Text
  pub last_saved_state_vector : Option Bytes
  pub last_persisted : Option Persisted

-- The callbacks that the manager hands to `setTimeout`: a debounced flush, an eviction.
pub data TimerAction : Type 0 where
  save : Text → TimerAction
  evict : Text → TimerAction

pub record Timer : Type 0 where
  pub handle : ℕ
  pub due : ℕ
  pub action : TimerAction

-- The manager, the timers that run, the flushes that it has started without waiting for them, in
-- their order, and the world.
pub record Manager (D W : Type 0) : Type 0 where
  pub docs : Dict (ManagedDoc D)
  pub timers : List Timer
  pub next_timer : ℕ
  pub flushes : List Text
  pub world : W

-- interface EmbedJobPayload
pub record EmbedJob : Type 0 where
  pub node_id : Text
  pub user_id : Text
  pub workspace_id : Text

unfoldable pub without_handle : ℕ → List Timer → List Timer
without_handle h [] = []
without_handle h (t ∷ ts) =
    let rest = without_handle h ts in if t.handle == h then rest else t ∷ rest

module _ {D W : Type 0} where
  -- if (timer) clearTimeout(timer)
  unfoldable pub clear_timeout : Option ℕ → Manager D W → Manager D W
  clear_timeout none s = s
  clear_timeout (some h) s = record s { timers = without_handle h s.timers }

  -- The state after setTimeout(action, ...); the new timer's handle is `next_timer` before it.
  unfoldable pub set_timeout : ℕ → TimerAction → Manager D W → Manager D W
  set_timeout due action s = record s {
    timers = s.timers ++ record { handle = s.next_timer; due = due; action = action } ∷ [];
    next_timer = suc s.next_timer;
  }

  unfoldable pub put_doc : Text → ManagedDoc D → Manager D W → Manager D W
  put_doc node_id managed s = record s { docs = Dict.insert node_id managed s.docs }

  unfoldable pub drop_doc : Text → Manager D W → Manager D W
  drop_doc node_id s = record s { docs = Dict.remove node_id s.docs }

  abbrev pub on_world : {A : Type 0} → Io W A → Io (Manager D W) A
  on_world m s = let (r, w) = m s.world in (r, record s { world = w })

-- An embedding job that cannot be queued is only logged.
unfoldable pub enqueue_embed_job :
    {D E W : Type 0} → Env D E W → JsonCodec EmbedJob → EmbedJob → Io W (Unit {0})
enqueue_embed_job env jobs job =
    catch (env.redis.r_push RedisKeys.embed_jobs_queue (jobs.stringify job)) (λ _. pure tt)
