-- ===== src/NodeContent/Service/Replies.antt =====
-- What src/domain/node-content/service asks the database for, and what the documentation of Prisma
-- says of the replies.
use aideep_websocket.Common.{
  Text, codes, ◌≡◌, refl, Bool, true, ◌&&◌, Option, none, some, Result, ok, text_eq, text_eq_iff,
  arith,
}
use aideep_websocket.Common.Dict
use aideep_websocket.App.{App}
use aideep_websocket.Attachments.{is_null}
use aideep_websocket.Env.Database.{Json, str, NodeRow, Membership}
use aideep_websocket.Yjs.CrdtService.{content_or_empty}
use aideep_websocket.Ws.State.{Gateway, in_world}
use aideep_websocket.NodeContent.Service.{is_markdown, is_text}

-- Documents, sockets, rooms and what has been sent are as before; the world may have moved.
abbrev pub IsUntouched : {D W : Type 0} → Gateway D W → Gateway D W → Type 0
IsUntouched g g' =
    (g'.manager.docs ≡ g.manager.docs)
    × (g'.manager.timers ≡ g.manager.timers)
    × (g'.manager.flushes ≡ g.manager.flushes)
    × (g'.sockets ≡ g.sockets)
    × (g'.sent ≡ g.sent)

pub in_world-IsUntouched :
    {D W : Type 0} (g g' : Gateway D W) (w : W) → g' ≡ in_world w g → IsUntouched g g'
in_world-IsUntouched g g' w e =
    (ground arith, ground arith, ground arith, ground arith, ground arith)

-- A node of a workspace that is not deleted, and the markdown of which may be appended to.
pub record IsEditable (workspace_id node_id : Text) (row : NodeRow) : Type 0 where
  pub node : row.node_id ≡ node_id
  pub workspace : row.workspace_id ≡ workspace_id
  pub live : row.deleted_at ≡ none
  pub markdown :
      Dict.get (codes "dataType") (content_or_empty row.content) ≡ some (str (codes "MARKDOWN"))

-- What a query asks of a row of nodes.
abbrev pub is_node_of : Text → Text → NodeRow → Bool
is_node_of workspace_id node_id row =
    text_eq row.node_id node_id && text_eq row.workspace_id workspace_id && is_null row.deleted_at

pub null-none {ℓ} : {A : Type ℓ} (date : Option A) → is_null date ≡ true → date ≡ none
null-none none h = refl
null-none (some a) h = ground arith

is_text-str : (t : Text) (json : Option Json) → is_text t json ≡ true → json ≡ some (str t)
is_text-str t none h = ground arith
is_text-str t (some (str s)) h = ground (arith, text_eq_iff s t)
is_text-str t (some _) h = ground arith

module _ {D E W : Type 0} (app : App D E W) where
  -- A query answers with rows that it asks for.
  pub record IsFiltered : Type 0 where
    pub nodes :
        (test : NodeRow → Bool) (w w' : W) (row : NodeRow)
        → app.env.prisma.nodes_find_first test w ≡ (ok (some row), w')
        → test row ≡ true
    pub members :
        (user ws : Text) (test : Membership → Bool) (w w' : W) (m : Membership)
        → app.env.prisma.members_find_unique user ws test w ≡ (ok (some m), w')
        → (m.user_id ≡ user) × (m.workspace_id ≡ ws) × (test m ≡ true)

  -- The reply of the database to the question for a node of a workspace.
  abbrev pub node_reply : Text → Text → W → Result (Option NodeRow) × W
  node_reply workspace_id node_id =
      app.env.prisma.nodes_find_first (is_node_of workspace_id node_id)

  pub node_reply-IsEditable :
      (filtered : IsFiltered) (ws n : Text) (w w' : W) (row : NodeRow)
      → node_reply ws n w ≡ (ok (some row), w')
      → is_markdown row.content ≡ true
      → IsEditable ws n row
  unfolding is_markdown
  node_reply-IsEditable filtered ws n w w' row e text =
      let asked = filtered.nodes (is_node_of ws n) w w' row e in
      record {
        node = ground (arith, text_eq_iff row.node_id n);
        workspace = ground (arith, text_eq_iff row.workspace_id ws);
        live = null-none row.deleted_at (ground arith);
        markdown = is_text-str (codes "MARKDOWN") _ text;
      }
