-- ===== src/Examples/Sockets.antt =====
-- Histories of the server with one socket, "s", of the user "u".
use aideep_websocket.Common.{
  List, Text, codes, ◌≡◌, refl, true, false, none, some, [], ◌∷◌, ◌++◌, ok, err, external,
}
use aideep_websocket.Common.Dict
use aideep_websocket.Env.Database.{Membership, editor, viewer}
use aideep_websocket.Env.Documents.{SyncReply}
use aideep_websocket.Yjs.Managed.{ManagedDoc}
use aideep_websocket.Yjs.DocManager.Clients.{has_client}
use aideep_websocket.Ws.State.{Gateway, client_data, yjs_joined, not_a_member, refused}
use aideep_websocket.Ws.Gateway.{Handshake, JoinWorkspace, handle_disconnect, handle_join}
use aideep_websocket.Ws.YjsHandlers.{handle_yjs_sync, handle_yjs_join, is_viewer, is_read_only}
use aideep_websocket.Ws.Admission.{IsMembership, handle_yjs_join-admits}
use aideep_websocket.Yjs.Flush.{truthy}
use aideep_websocket.Ws.Access.{
  filed_under, IsSameOutcome, handle_yjs_sync-not_opened, handle_yjs_join-any_workspace,
}
use aideep_websocket.Ws.Event.{to_others, yjs_sync as yjs_sync_message, yjs_room}
use aideep_websocket.Yjs.Lifecycle.{get_doc}
use aideep_websocket.Ws.Guards.{handle_yjs_sync-read_only, handle_disconnect-err}
use aideep_websocket.Ws.Rooms.{IsTracked, in_room}
use aideep_websocket.Server.{Input, connects, join_workspace, yjs_join, yjs_sync, run, start}
use aideep_websocket.Yjs.Timers.{IsArmed}
use aideep_websocket.Ws.Counted.{IsCounted}
use aideep_websocket.Server.Counted.{run-IsCounted}
use aideep_websocket.Server.Timers.{run-IsArmed}
use aideep_websocket.Server.Rooms.{run-IsTracked, handle_disconnect-gone}
use aideep_websocket.Examples.World.{World, app, broken, node, workspace, user}
use aideep_websocket.Examples.Opened.{server}

abbrev socket : Text
socket = codes "s"

abbrev token : Handshake
token = record { auth_token = some user; query_token = none }

abbrev entry : JoinWorkspace
entry = record { workspace_id = workspace; user_name = user; color = codes "c"; profile = none }

-- Connect, join the workspace, open the document, send an update.
abbrev history : List Input
history =
    connects socket token
    ∷ join_workspace socket entry
    ∷ yjs_join socket node
    ∷ yjs_sync socket node (codes "ab")
    ∷ []

abbrev editing : Gateway Text World
editing = run (app editor) history (start [])

abbrev viewing : Gateway Text World
viewing = run (app viewer) history (start [])

abbrev gone : Gateway Text World
gone = (handle_disconnect (app editor) socket editing).1

is_open : has_client node socket editing.manager ≡ true
unfolding server has_client
is_open = refl

run-IsTracked_example : IsTracked editing
run-IsTracked_example = run-IsTracked (app editor) history []

run-IsArmed_example : IsArmed editing.manager
run-IsArmed_example = run-IsArmed (app editor) history []

run-IsCounted_example : IsCounted editing
run-IsCounted_example = run-IsCounted (app editor) history []

leaves : handle_disconnect (app editor) socket editing ≡ (ok tt, gone)
unfolding server
leaves = refl

handle_disconnect-gone_example :
    (has_client node socket gone.manager ≡ false) × (Dict.get socket gone.yjs_rooms ≡ none)
handle_disconnect-gone_example =
    handle_disconnect-gone (app editor) history [] socket node gone leaves

-- Redis refuses to drop the member, so the socket stays among the clients.
abbrev stranded : Gateway Text World
stranded = (handle_disconnect (broken editor) socket editing).1

leaves_badly : handle_disconnect (broken editor) socket editing ≡ (err (external 1), stranded)
unfolding server
leaves_badly = refl

handle_disconnect-err_example :
    (stranded.yjs_rooms ≡ editing.yjs_rooms) × (stranded.manager.docs ≡ editing.manager.docs)
handle_disconnect-err_example =
    handle_disconnect-err (broken editor) socket editing stranded (external 1) leaves_badly

-- The update of a viewer.
abbrev viewed : ManagedDoc Text
viewed = record {
  doc = codes "ab";
  clients = socket ∷ [];
  workspace_id = workspace;
  save_timer = none;
  idle_timer = none;
  last_activity = 0;
  dirty_for_embed = false;
  last_editor_user_id = none;
  last_saved_state_vector = none;
  last_persisted = none;
}

abbrev answer : SyncReply Text
answer = record { message_type = 2; reply = []; doc = codes "abcd" }

handle_yjs_sync-read_only_example :
    let g' = (handle_yjs_sync (app viewer) socket node (codes "cd") viewing).1 in
    (g'.sent ≡ viewing.sent ++ [])
    × (g'.manager.timers ≡ viewing.manager.timers)
    × (g'.manager.world ≡ viewing.manager.world)
    × (Dict.get node g'.manager.docs ≡ some (record viewed { doc = codes "abcd" }))
unfolding server
handle_yjs_sync-read_only_example =
    handle_yjs_sync-read_only (app viewer) socket node (codes "cd") viewing viewed answer refl refl
      refl

-- A user of another name is no member.
abbrev strange : Gateway Text World
strange = run (app editor) (connects socket token ∷ []) (start [])

abbrev no_ids : JoinWorkspace
no_ids = record entry { workspace_id = [] }

refuses : handle_join (app editor) socket no_ids strange ≡ (ok (refused not_a_member), strange)
unfolding server
refuses = refl

-- The viewer opens the document once more.
abbrev reopened : Gateway Text World
reopened = (handle_yjs_join (app viewer) socket node viewing).1

reopens : handle_yjs_join (app viewer) socket node viewing ≡ (ok (yjs_joined true), reopened)
unfolding server
reopens = refl

handle_yjs_join-admits_example :
    (u ws : Text) × (truthy (client_data socket viewing).user_id ≡ some u)
    × (truthy (client_data socket viewing).workspace_id ≡ some ws)
    × ((m : Membership) × IsMembership (app viewer) socket u ws m viewing
        × (true ≡ is_viewer m.role)
        × (is_read_only socket node reopened ≡ true)
        × (in_room node socket reopened ≡ true))
handle_yjs_join-admits_example =
    handle_yjs_join-admits (app viewer) socket node true viewing reopened reopens

-- A socket that has not opened the document, of a user of another workspace.
abbrev stranger : Text
stranger = codes "t"

handle_yjs_sync-not_opened_example :
    let g' = (handle_yjs_sync (app viewer) stranger node (codes "cd") viewing).1 in
    (g'.sent
      ≡ (viewing.sent ++ [])
        ++ to_others stranger (yjs_room node) (yjs_sync_message node (codes "cd")) ∷ [])
    × (get_doc node g'.manager ≡ some (codes "abcd"))
unfolding server
handle_yjs_sync-not_opened_example =
    handle_yjs_sync-not_opened (app viewer) stranger node (codes "cd") viewing viewed answer refl
      refl refl refl

abbrev elsewhere : Membership
elsewhere = record {
  user_id = stranger;
  workspace_id = codes "v";
  role = editor;
  deleted_at = none;
}

abbrev visited : Gateway Text World
visited = record viewing {
  sockets =
      (
        stranger,
        record {
          user_id = some stranger;
          workspace_id = some (codes "v");
          membership_cache = (codes "v", some elsewhere) ∷ [];
          yjs_read_only = [];
        },
      )
      ∷ viewing.sockets;
}

let_in : (handle_yjs_join (app viewer) stranger node visited).0 ≡ ok (yjs_joined false)
unfolding server
let_in = refl

handle_yjs_join-any_workspace_example :
    IsSameOutcome
      (app viewer)
      (handle_yjs_join
        (app viewer)
        stranger
        node
        (filed_under (app viewer) node (codes "x") viewed visited))
      (handle_yjs_join (app viewer) stranger node visited)
unfolding server
handle_yjs_join-any_workspace_example =
    handle_yjs_join-any_workspace (app viewer) stranger node (codes "x") viewed visited refl
