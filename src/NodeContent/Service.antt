-- ===== src/NodeContent/Service.antt =====
-- src/domain/node-content: the service, its repository, and what the controller calls.
pub mod Retry
pub mod Replies
pub mod Guards
pub mod Patches
use aideep_websocket.Common.{
  ℕ, Text, codes, Bool, true, false, not, ◌&&◌, ◌||◌, Option, none, some, Result, ok, err, Io, pure,
  throw, lift, catch, ◌>>=◌, ◌>>◌, bad_request, not_found, missing, unprocessable, unauthorized,
  conflict, version_conflict, is_empty, text_eq, ltb, ◌==◌, if◌then◌else◌,
}
use aideep_websocket.Common.Dict
use aideep_websocket.App.{App}
use aideep_websocket.RedisKeys
use aideep_websocket.Env.Database.{Json, str, Content, NodeRow, Membership, owner, viewer, editor}
use aideep_websocket.Membership.{check_workspace}
use aideep_websocket.Attachments.{is_null}
use aideep_websocket.Attachments.Urls.{length_of}
use aideep_websocket.Yjs.Markdown.{trim}
use aideep_websocket.Yjs.CrdtService.{content_or_empty}
use aideep_websocket.Yjs.DocManager.{AppendResult}
use aideep_websocket.Yjs.DocManager
use aideep_websocket.Ws.State.{Gateway, update, on_manager, on_outside}
use aideep_websocket.Ws.Gateway.{broadcast_yjs_update}
use aideep_websocket.NodeContent.Operation.{
  OperationBody, OperationResponse, ClaimState, in_progress, applied, Claim, NodeBodyPatch,
}

-- The arguments of `executeContentOperation`.
pub record Request : Type 0 where
  pub user_id : Text
  pub workspace_id : Text
  pub node_id : Text
  pub idempotency_key : Text
  pub body : OperationBody

abbrev pub claim_ttl : ℕ
claim_ttl = 60

abbrev pub response_ttl : ℕ
response_ttl = 86400

unfoldable pub is_valid_key : Text → Bool
is_valid_key key = not (is_empty key || ltb (length_of key) 8 || ltb 128 (length_of key))

unfoldable pub is_blank : Text → Bool
unfolding trim
is_blank markdown = is_empty (trim markdown)

abbrev pub is_text : Text → Option Json → Bool
is_text t (some (str s)) = text_eq s t
is_text t _ = false

-- content.dataType === 'MARKDOWN'
unfoldable pub is_markdown : Option Content → Bool
is_markdown content =
    is_text (codes "MARKDOWN") (Dict.get (codes "dataType") (content_or_empty content))

unfoldable pub validate : Request → Result (Unit {0})
unfolding is_valid_key is_blank
validate r =
    if not (is_valid_key r.idempotency_key)
    then err (bad_request (codes "INVALID_IDEMPOTENCY_KEY"))
    else if is_blank r.body.markdown
    then err (bad_request (codes "EMPTY_MARKDOWN"))
    else ok tt

-- The role test of `checkEditPermission`.
unfoldable pub check_role : Option Membership → Result (Unit {0})
check_role none = err (missing (codes "해당 유저의 워크스페이스가 존재하지 않습니다."))
check_role (some m) = elim m.role [
  | owner ↦ ok tt
  | editor ↦ ok tt
  | viewer ↦ err (unauthorized (codes "노드를 수정할 권한이 없습니다."))
]

unfoldable pub check_target : Option NodeRow → Result NodeRow
unfolding is_markdown
check_target none = err (not_found (codes "NODE_NOT_FOUND"))
check_target (some row) =
    if is_markdown row.content then ok row else err (unprocessable (codes "NODE_TYPE_NOT_EDITABLE"))

-- A node that is missing or no markdown is skipped.
unfoldable pub patch_target : Option NodeRow → Bool
patch_target none = false
patch_target (some row) = is_markdown row.content

abbrev pub same_hash : Text → Option Text → Bool
same_hash hash none = false
same_hash hash (some h) = text_eq h hash

abbrev pub is_in_progress : Option ClaimState → Bool
is_in_progress (some in_progress) = true
is_in_progress _ = false

-- The answer that a record in Redis gives to a request with this hash.
unfoldable pub answer_claim : Text → Claim → Result OperationResponse
answer_claim hash claim =
    if same_hash hash claim.request_hash
    then (if is_in_progress claim.state
        then err (conflict (codes "OPERATION_IN_PROGRESS"))
        else elim claim.response [
          | none ↦ err (conflict (codes "OPERATION_IN_PROGRESS"))
          | some response ↦ ok (record response { duplicate = true })
        ])
    else err (conflict (codes "IDEMPOTENCY_KEY_REUSED"))

unfoldable pub check_version : Option ℕ → ℕ → Result (Unit {0})
check_version none current = ok tt
check_version (some expected) current =
    if expected == current then ok tt else err (version_conflict current)

module _ {D E W : Type 0} (app : App D E W) where
  -- `selectNodeById` of the repository.
  unfoldable pub select_node_by_id : Text → Text → Io W (Option NodeRow)
  select_node_by_id workspace_id node_id = app.env.prisma.nodes_find_first (λ row.
      text_eq row.node_id node_id
      && text_eq row.workspace_id workspace_id
      && is_null row.deleted_at)

  unfoldable pub check_edit_permission : Text → Text → Io W (Unit {0})
  check_edit_permission user_id workspace_id = do
    membership ← check_workspace app.env user_id workspace_id
    lift (check_role membership)

  abbrev pub cache_key : Request → Text
  cache_key r =
      RedisKeys.node_content_operation r.workspace_id r.node_id r.user_id r.idempotency_key

  -- What comes before the cache: the request, the user's role, the node.
  unfoldable pub admit : Request → Io W NodeRow
  unfolding check_edit_permission select_node_by_id
  admit r = do
    lift (validate r)
    check_edit_permission r.user_id r.workspace_id
    found ← select_node_by_id r.workspace_id r.node_id
    lift (check_target found)

  -- JSON.parse(cachedRaw) and its answer
  unfoldable pub answer_raw : Text → Text → Result OperationResponse
  answer_raw hash raw = elim (app.claims.parse raw) [
    | err e ↦ err e
    | ok claim ↦ answer_claim hash claim
  ]

  -- Takes the key for this request, or fails because another request has it.
  unfoldable pub claim_key : Text → Text → ℕ → Io W (Unit {0})
  claim_key key claim_text ttl = do
    claimed ← app.env.redis.set_nx key claim_text ttl
    if claimed then pure tt else throw (conflict (codes "OPERATION_IN_PROGRESS"))

  -- The append; a failure gives the key back before it is thrown on.
  unfoldable pub append_or_release :
      Text → Text → Text → Text → Text → Io (Gateway D W) AppendResult
  append_or_release key node_id workspace_id markdown user_id =
      catch
        (on_manager
          (DocManager.append_markdown app.env app.jobs node_id workspace_id markdown user_id))
        (λ e. on_outside (app.env.redis.del key) >> throw e)

  unfoldable pub in_progress_claim : Request → Claim
  in_progress_claim r = record {
    request_hash = some (app.request_hash r.body);
    state = some in_progress;
    response = none;
  }

  unfoldable pub done_claim : Request → OperationResponse → Claim
  done_claim r response = record {
    request_hash = some (app.request_hash r.body);
    state = none;
    response = some response;
  }

  -- The response to an append, put on record before it is given.
  unfoldable pub response_of : Request → NodeRow → AppendResult → Text → OperationResponse
  response_of r existing appended operation_id = record {
    operation_id = operation_id;
    node_id = r.node_id;
    operation = r.body.operation;
    previous_version = existing.version;
    version = appended.persisted.version;
    updated_at = appended.persisted.updated_at;
    duplicate = false;
  }

  unfoldable pub record_response : Request → NodeRow → AppendResult → Io W OperationResponse
  unfolding response_of done_claim
  record_response r existing appended = do
    operation_id ← app.env.random_uuid
    let response = response_of r existing appended operation_id
    app.env.redis.set (cache_key r) (app.claims.stringify (done_claim r response)) response_ttl
    pure response

  unfoldable pub claim_request : Request → Io W (Unit {0})
  unfolding claim_key in_progress_claim
  claim_request r = claim_key (cache_key r) (app.claims.stringify (in_progress_claim r)) claim_ttl

  -- The rest, for a key that has no record yet.
  unfoldable pub perform : Request → NodeRow → Io (Gateway D W) OperationResponse
  perform r existing = do
    lift (check_version r.body.expected_version existing.version)
    on_outside (claim_request r)
    appended ← append_or_release (cache_key r) r.node_id r.workspace_id r.body.markdown r.user_id
    update (broadcast_yjs_update app r.node_id appended.update)
    on_outside (record_response r existing appended)

  unfoldable pub execute_content_operation : Request → Io (Gateway D W) OperationResponse
  execute_content_operation r = do
    existing ← on_outside (admit r)
    cached ← on_outside (app.env.redis.get (cache_key r))
    elim cached [
      | some raw ↦ lift (answer_raw (app.request_hash r.body) raw)
      | none ↦ perform r existing
    ]

  abbrev pub patch_key : NodeBodyPatch → Text
  patch_key p =
      RedisKeys.node_content_operation p.workspace_id p.node_id p.actor_id p.command_event_id

  abbrev pub applied_claim : Claim
  applied_claim = record { request_hash = none; state = some applied; response = none }

  unfoldable pub append_patch : NodeBodyPatch → Io (Gateway D W) (Unit {0})
  append_patch p = do
    appended ←
        on_manager (
          DocManager.append_markdown app.env app.jobs p.node_id p.workspace_id p.markdown
            p.actor_id)
    update (broadcast_yjs_update app p.node_id appended.update)

  -- The append of a patch whose key has been taken; a failure gives the key back and is logged.
  unfoldable pub apply_claimed : NodeBodyPatch → Io (Gateway D W) (Unit {0})
  apply_claimed p = catch (append_patch p) (λ _. on_outside (app.env.redis.del (patch_key p)))

  unfoldable pub claim_patch : NodeBodyPatch → Io W Bool
  claim_patch p =
      app.env.redis.set_nx (patch_key p) (app.claims.stringify applied_claim) response_ttl

  unfoldable pub claim_and_apply : NodeBodyPatch → Io (Gateway D W) (Unit {0})
  claim_and_apply p = do
    claimed ← on_outside (claim_patch p)
    if claimed then apply_claimed p else pure tt

  -- A patch for a node that has been looked up.
  unfoldable pub patch_found : NodeBodyPatch → Option NodeRow → Io (Gateway D W) (Unit {0})
  patch_found p existing = if patch_target existing then claim_and_apply p else pure tt

  unfoldable pub apply_node_body_patch : NodeBodyPatch → Io (Gateway D W) (Unit {0})
  apply_node_body_patch p =
      if is_blank p.markdown || is_empty p.command_event_id then pure tt else do
        existing ← on_outside (select_node_by_id p.workspace_id p.node_id)
        patch_found p existing
