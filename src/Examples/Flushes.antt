-- ===== src/Examples/Flushes.antt =====
-- Flushes of a document in memory: a first one, one with nothing to save, one that fails, and edits
-- that arrive while a flush is under way.
use aideep_websocket.Common.{
  Text, codes, ◌≡◌, ◌≢◌, refl, true, false, none, some, [], ◌∷◌, ◌++◌, ok, err, Result, throw,
  external,
}
use aideep_websocket.Common.Dict
use aideep_websocket.Env.Database.{Persisted, editor, str}
use aideep_websocket.Env.{Env}
use aideep_websocket.Yjs.Managed.{ManagedDoc, Manager, Timer, save, evict, put_doc}
use aideep_websocket.Yjs.CrdtService.{save_to_redis}
use aideep_websocket.Yjs.Flush.{Plan, up_to_date, write, begin, finish, flush_doc_locked}
use aideep_websocket.Yjs.Flush.Outcome.{
  IsSavedAs, IsUnsavedAs, flush_doc_locked-IsSavedAs, flush_doc_locked-IsUnsavedAs,
}
use aideep_websocket.Yjs.Flush.Again.{refreshed, flush-edit-flush, edit_during_flush-saved_later}
use aideep_websocket.Yjs.Flush.Lost.{flush_doc_locked-fire}
use aideep_websocket.Yjs.Lifecycle.{fire}
use aideep_websocket.Yjs.DocManager.{AppendResult, append_markdown, remove_client}
use aideep_websocket.Yjs.DocManager.Append.{IsSaved, append_markdown-IsSaved}
use aideep_websocket.Yjs.DocManager.Idle.{idle_of, idle_timer_at, remove_client-remove_client}
use aideep_websocket.Examples.World.{World, env, jobs, node, workspace, user, redis, crdt}
use aideep_websocket.Examples.Opened.{documents}

-- One client has the document "ab" open, and has edited it.
abbrev managed : ManagedDoc Text
managed = record {
  doc = codes "ab";
  clients = codes "s" ∷ [];
  workspace_id = workspace;
  save_timer = some 0;
  idle_timer = none;
  last_activity = 0;
  dirty_for_embed = true;
  last_editor_user_id = some user;
  last_saved_state_vector = none;
  last_persisted = none;
}

abbrev edited : Manager Text World
edited = record {
  docs = (node, managed) ∷ [];
  timers = record { handle = 0; due = 2000; action = save node } ∷ [];
  next_timer = 1;
  flushes = [];
  world = [];
}

abbrev version_four : Persisted
version_four = record { version = 4; updated_at = 0 }

abbrev flushed : Manager Text World
flushed = (flush_doc_locked (env editor) jobs node none edited).1

abbrev flushed_doc : ManagedDoc Text
flushed_doc = record managed {
  save_timer = none;
  dirty_for_embed = false;
  last_saved_state_vector = some (codes "ab");
  last_persisted = some version_four;
}

flushes : flush_doc_locked (env editor) jobs node none edited ≡ (ok version_four, flushed)
unfolding documents
flushes = refl

is_flushed : Dict.get node flushed.docs ≡ some flushed_doc
unfolding documents
is_flushed = refl

flush_doc_locked-IsSavedAs_example : IsSavedAs (env editor) managed version_four (some flushed_doc)
unfolding documents
flush_doc_locked-IsSavedAs_example =
    flush_doc_locked-IsSavedAs (env editor) node jobs none edited flushed managed version_four refl
      flushes

-- A Redis that takes no writes.
abbrev stuck : Env Text Text World
stuck = record (env editor) { redis = record redis { set = λ key value ttl. throw (external 1) } }

abbrev unsaved : Manager Text World
unsaved = (flush_doc_locked stuck jobs node none edited).1

abbrev unsaved_doc : ManagedDoc Text
unsaved_doc = record managed { save_timer = none }

fails : flush_doc_locked stuck jobs node none edited ≡ (err (external 1), unsaved)
unfolding documents
fails = refl

flush_doc_locked-IsUnsavedAs_example : IsUnsavedAs managed (some unsaved_doc)
unfolding documents
flush_doc_locked-IsUnsavedAs_example =
    flush_doc_locked-IsUnsavedAs stuck node jobs none edited unsaved managed (external 1) refl fails

-- Documents whose edits are deletions only: the state vector stays.
abbrev deleting : Env Text Text World
deleting = record (env editor) { crdt = record crdt { encode_state_vector = λ doc. codes "v" } }

abbrev deleted_from : Manager Text World
deleted_from = (flush_doc_locked deleting jobs node none edited).1

abbrev deleted_doc : ManagedDoc Text
deleted_doc = record flushed_doc { last_saved_state_vector = some (codes "v") }

flush-edit-flush_example :
    let again = put_doc node (record deleted_doc { doc = codes "a" }) deleted_from in
    ((flush_doc_locked deleting jobs node none again).0
      ≡ refreshed version_four (save_to_redis deleting node (codes "a") deleted_from.world).0)
    × ((flush_doc_locked deleting jobs node none again).1.world
        ≡ (save_to_redis deleting node (codes "a") deleted_from.world).1)
unfolding documents
flush-edit-flush_example =
    flush-edit-flush deleting jobs node none none edited deleted_from managed deleted_doc
      version_four (codes "a") refl refl refl refl

-- The flush of "ab" has begun when "c" is typed.
abbrev plan : Plan
plan = record {
  state = codes "ab";
  state_vector = codes "ab";
  markdown_text = codes "ab";
  workspace_id = workspace;
  attachment_content = ok ((codes "editorState", str (codes "ab")) ∷ []);
  editor = some user;
}

abbrev typed_doc : ManagedDoc Text
typed_doc = record managed { doc = codes "abc"; save_timer = some 1 }

abbrev typed : Manager Text World
typed = record edited {
  docs = (node, typed_doc) ∷ [];
  timers = record { handle = 1; due = 2100; action = save node } ∷ [];
  next_timer = 2;
}

abbrev saved_late : Manager Text World
saved_late = (finish (env editor) jobs node (write plan) typed).1

abbrev late_doc : ManagedDoc Text
late_doc = record typed_doc {
  dirty_for_embed = false;
  last_saved_state_vector = some (codes "ab");
  last_persisted = some version_four;
}

begins : (begin (env editor) node none edited).0 ≡ ok (write plan)
unfolding documents
begins = refl

edit_during_flush-saved_later_example :
    begin (env editor) node none saved_late
    ≢ (ok (up_to_date (codes "abc") version_four), saved_late)
unfolding documents
edit_during_flush-saved_later_example =
    edit_during_flush-saved_later (env editor) jobs node none plan version_four version_four typed
      saved_late saved_late typed_doc (codes "abc") refl (λ e. cc) refl

-- An old idle timer.
abbrev idle_timer : Timer
idle_timer = record { handle = 7; due = 300000; action = evict node }

-- An append to a document that nobody has open.
abbrev unopened : Manager Text World
unopened = record edited { docs = []; timers = [] }

abbrev appended : Result AppendResult × Manager Text World
appended = append_markdown (env editor) jobs node workspace (codes "c") user unopened

abbrev answer : AppendResult
answer = elim appended.0 [
  | ok r ↦ r
  | err e ↦ record { update = []; persisted = record { version = 0; updated_at = 0 } }
]

append_markdown-IsSaved_example : IsSaved (env editor) node answer (Dict.get node appended.1.docs)
unfolding documents
append_markdown-IsSaved_example =
    append_markdown-IsSaved (env editor) node jobs workspace (codes "c") user unopened appended.1
      answer refl

-- The database is out of reach when the last client leaves, and still is when the idle timer fires.
abbrev abandoned : Manager Text World
abandoned = record edited { docs = (node, record managed { clients = [] }) ∷ [] }

abbrev not_saved : Manager Text World
not_saved = (flush_doc_locked stuck jobs node none abandoned).1

flush_doc_locked-fire_example :
    let t = fire idle_timer not_saved in
    (Dict.get node t.docs ≡ none) × (t.world ≡ not_saved.world) × (t.flushes ≡ not_saved.flushes)
unfolding documents
flush_doc_locked-fire_example =
    flush_doc_locked-fire stuck jobs idle_timer node none abandoned not_saved
      (record managed { clients = [] }) (external 1) refl refl refl refl

-- The one client leaves twice.
remove_client-remove_client_example :
    let s₂ =
      remove_client
        (env editor)
        node
        (codes "s")
        (remove_client (env editor) node (codes "s") edited) in
    (s₂.timers
      ≡ edited.timers
        ++ idle_timer_at (env editor) node 1 edited ∷ idle_timer_at (env editor) node 2 edited ∷ [])
    × (idle_of (Dict.get node s₂.docs) ≡ some 2)
unfolding documents
remove_client-remove_client_example =
    remove_client-remove_client (env editor) node (codes "s") (codes "s") edited managed refl refl
