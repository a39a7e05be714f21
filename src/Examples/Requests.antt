-- ===== src/Examples/Requests.antt =====
-- Runs of a content operation, of its repetition, and of requests that are turned away.
use aideep_websocket.Common.{
  ℕ, Text, ◌≡◌, ◌⊎◌, refl, sym, ap, ◌∙◌, Bool, true, false, Option, some, none, [], Result, ok,
  pure, if◌then◌else◌, arith, codes,
}
use aideep_websocket.Common.Dict.{get-insert_self}
use aideep_websocket.Env.Database.{NodeRow, Membership, editor}
use aideep_websocket.Ws.State.{Gateway}
use aideep_websocket.NodeContent.Service.{admit, execute_content_operation, apply_node_body_patch}
use aideep_websocket.NodeContent.Service.Retry.{execute-execute}
use aideep_websocket.NodeContent.Service.Guards
use aideep_websocket.NodeContent.Service.Patches
use aideep_websocket.NodeContent.Service.Replies.{IsUntouched, IsFiltered}
use aideep_websocket.NodeContent.Service.Guards.{IsAdmitted, execute-IsUntouched_or_IsAdmitted}
use aideep_websocket.NodeContent.Operation.{NodeBodyPatch}
use aideep_websocket.NodeContent.Service.Patches.{apply_node_body_patch-IsUntouched_or_claimed}
use aideep_websocket.Server.{start}
use aideep_websocket.Examples.World.{
  World, app, member_of, node, workspace, user, request, row, response,
}
use aideep_websocket.Examples.Opened.{server}

abbrev before : Gateway Text World
before = start []

abbrev after : Gateway Text World
after = (execute_content_operation (app editor) request before).1

admits : admit (app editor) request [] ≡ (ok row, [])
unfolding server
admits = refl

reads_back :
    (key value : Text) (ttl : ℕ) (w w' : World)
    → (app editor).env.redis.set key value ttl w ≡ (ok tt, w')
    → (app editor).env.redis.get key w' ≡ (ok (some value), w')
reads_back key value ttl w w' e = ground (arith, get-insert_self key value w)

appends : execute_content_operation (app editor) request before ≡ (ok response, after)
unfolding server
appends = refl

still_admitted : admit (app editor) request after.manager.world ≡ (ok row, after.manager.world)
unfolding server
still_admitted = refl

execute-execute_example :
    execute_content_operation (app editor) request after
    ≡ (ok (record response { duplicate = true }), after)
unfolding server
execute-execute_example =
    execute-execute (app editor) request before after response row reads_back refl appends refl
      still_admitted

abbrev value : {A : Type 0} → A → Result (Option A) → A
value a (ok (some b)) = b
value a _ = a

-- A query that has found a row has found the only one, and it passes the test.
only :
    {A : Type 0} (b : Bool) (x y : A) (w w' : World)
    → pure (if b then some x else none) w ≡ (ok (some y), w')
    → (x ≡ y) × (b ≡ true)
only true x y w w' e = (ap (λ p. value x p.0) e, refl)
only false x y w w' e = absurd (ground arith)

filters_members :
    (name ws : Text) (test : Membership → Bool) (w w' : World) (m : Membership)
    → (app editor).env.prisma.members_find_unique name ws test w ≡ (ok (some m), w')
    → (m.user_id ≡ name) × (m.workspace_id ≡ ws) × (test m ≡ true)
filters_members name ws test w w' m e =
    let (same, passes) =
      only (test (member_of editor name ws)) (member_of editor name ws) m w w' e in
    rw (sym same) (refl, refl, passes)

filters_nodes :
    (test : NodeRow → Bool) (w w' : World) (found : NodeRow)
    → (app editor).env.prisma.nodes_find_first test w ≡ (ok (some found), w')
    → test found ≡ true
filters_nodes test w w' found e =
    let (same, passes) = only (test row) row found w w' e in ap test (sym same) ∙ passes

filters : IsFiltered (app editor)
filters = record { members = filters_members; nodes = filters_nodes }

execute-IsUntouched_or_IsAdmitted_example :
    IsUntouched before after
    ⊎ ((m : Membership) × (found : NodeRow) × IsAdmitted (app editor) request [] m found
        × Guards.IsGranted (app editor) request [] found)
execute-IsUntouched_or_IsAdmitted_example =
    execute-IsUntouched_or_IsAdmitted (app editor) request filters before

abbrev patch : NodeBodyPatch
patch = record {
  workspace_id = workspace;
  node_id = node;
  actor_id = user;
  command_event_id = codes "e1";
  markdown = codes "c";
}

apply_node_body_patch-IsUntouched_or_claimed_example :
    IsUntouched before (apply_node_body_patch (app editor) patch before).1
    ⊎ ((found : NodeRow) × Patches.IsGranted (app editor) patch [] found)
apply_node_body_patch-IsUntouched_or_claimed_example =
    apply_node_body_patch-IsUntouched_or_claimed (app editor) patch filters before
