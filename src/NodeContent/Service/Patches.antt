-- ===== src/NodeContent/Service/Patches.antt =====
-- src/domain/node-content/service: what a patch of a node's body must show before it is applied.
use aideep_websocket.Common.{
  ◌≡◌, ◌⊎◌, inl, inr, Bool, true, false, none, some, Option, Bool-cases, Result, Result-cases, ok,
  is_empty, arith,
}
use aideep_websocket.App.{App}
use aideep_websocket.RedisKeys
use aideep_websocket.Yjs.Markdown.{trim}
use aideep_websocket.Env.Database.{NodeRow}
use aideep_websocket.Ws.State.{Gateway, in_world}
use aideep_websocket.NodeContent.Operation.{NodeBodyPatch}
use aideep_websocket.NodeContent.Service.{
  applied_claim, is_blank, is_markdown, patch_target, select_node_by_id, claim_patch,
  claim_and_apply, patch_found, apply_node_body_patch,
}
use aideep_websocket.NodeContent.Service.Replies.{
  IsUntouched, IsEditable, IsFiltered, node_reply, node_reply-IsEditable,
}

module _ {D E W : Type 0} (app : App D E W) (p : NodeBodyPatch) where
  -- The replies to what a patch asks, the second in the world that the first has left.
  abbrev pub target_reply : W → Result (Option NodeRow) × W
  target_reply w = node_reply app p.workspace_id p.node_id w

  abbrev pub claim_reply : W → Result Bool × W
  claim_reply w =
      app.env.redis.set_nx
        (RedisKeys.node_content_operation p.workspace_id p.node_id p.actor_id p.command_event_id)
        (app.claims.stringify (applied_claim app)) 86400 (target_reply w).1

  -- What a patch shows, in the world in which it arrives, before anything is changed for it.
  pub record IsGranted (w : W) (row : NodeRow) : Type 0 where
    pub has_text : is_empty (trim p.markdown) ≡ false
    pub has_event : is_empty p.command_event_id ≡ false
    pub found_node : (target_reply w).0 ≡ ok (some row)
    pub editable : IsEditable p.workspace_id p.node_id row
    pub claimed : (claim_reply w).0 ≡ ok true

  claim_and_apply-claimed :
      (w : W) (g : Gateway D W)
      → IsUntouched g (claim_and_apply app p (in_world (target_reply w).1 g)).1
        ⊎ ((claim_reply w).0 ≡ ok true)
  unfolding claim_and_apply claim_patch
  claim_and_apply-claimed w g = elim (Result-cases (claim_reply w).0) [
    | inr (fault, down) ↦ inl (ground arith)
    | inl (false, taken) ↦ inl (ground arith)
    | inl (true, claimed) ↦ inr claimed
  ]

  patch_found-IsGranted :
      (filtered : IsFiltered app) (g : Gateway D W) (row : NodeRow)
      → is_empty (trim p.markdown) ≡ false
      → is_empty p.command_event_id ≡ false
      → (target_reply g.manager.world).0 ≡ ok (some row)
      → IsUntouched g (patch_found app p (some row) (in_world (target_reply g.manager.world).1 g)).1
        ⊎ IsGranted g.manager.world row
  unfolding patch_found patch_target
  patch_found-IsGranted filtered g row full named found =
      let w = g.manager.world in
      elim (Bool-cases (is_markdown row.content)) [
        | inr other ↦ inl (ground arith)
        | inl text ↦ elim (claim_and_apply-claimed w g) [
          | inl still ↦ inl (ground arith)
          | inr claimed ↦ inr (record {
            has_text = full;
            has_event = named;
            found_node = found;
            editable =
                node_reply-IsEditable app filtered p.workspace_id p.node_id w (target_reply w).1 row
                  (λ i. (found i, (target_reply w).1)) text;
            claimed = claimed;
          })
        ]
      ]

  -- Let a query of Prisma answer with rows that it asks for. A patch of a node from the event bus
  -- either leaves the documents, timers, pending flushes, sockets and sent messages as they were,
  -- or its markdown is not blank, its event has an identifier, the query for the node, in the world
  -- in which the patch arrives, was answered with its node, which is in its workspace, not deleted
  -- and markdown, and the SET NX of its key, in the world that this query has left, was answered
  -- with OK.
  pub apply_node_body_patch-IsUntouched_or_claimed :
      (filtered : IsFiltered app) (g : Gateway D W)
      → IsUntouched g (apply_node_body_patch app p g).1
        ⊎ ((row : NodeRow) × IsGranted g.manager.world row)
  unfolding apply_node_body_patch patch_found patch_target is_blank select_node_by_id
  apply_node_body_patch-IsUntouched_or_claimed filtered g =
      let looked = target_reply g.manager.world in
      elim (Bool-cases (is_empty (trim p.markdown))) [
        | inl blank ↦ inl (ground arith)
        | inr full ↦ elim (Bool-cases (is_empty p.command_event_id)) [
          | inl unnamed ↦ inl (ground arith)
          | inr named ↦ elim (Result-cases looked.0) [
            | inr (fault, down) ↦ inl (ground arith)
            | inl (none, absent) ↦ inl (ground arith)
            | inl (some row, there) ↦ elim (patch_found-IsGranted filtered g row full named there) [
              | inl still ↦ inl (ground arith)
              | inr claimed ↦ inr (row, claimed)
            ]
          ]
        ]
      ]
