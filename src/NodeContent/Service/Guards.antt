-- ===== src/NodeContent/Service/Guards.antt =====
-- src/domain/node-content/service: what a request must show before a document is changed for it.
use aideep_websocket.Common.{
  ℕ, Text, ◌≤◌, ◌≡◌, refl, sym, ap, ◌∙◌, ◌⊎◌, inl, inr, Bool, true, false, ◌||◌, Option, none, some,
  Option-cases, Bool-cases, Result, Result-cases, ok, err, Fault, lift, >>=-ok, is_empty, arith,
}
use aideep_websocket.App.{App}
use aideep_websocket.Attachments.{is_null}
use aideep_websocket.Attachments.Urls.{length_of}
use aideep_websocket.Env.Database.{NodeRow, Membership, Role, owner, editor, viewer}
use aideep_websocket.Membership.{check_workspace}
use aideep_websocket.RedisKeys
use aideep_websocket.Yjs.Markdown.{trim}
use aideep_websocket.Ws.State.{Gateway, in_world}
use aideep_websocket.NodeContent.Service.{
  Request, validate, is_valid_key, is_blank, admit, check_role, check_edit_permission, check_target,
  select_node_by_id, is_markdown, perform, execute_content_operation, check_version, claim_key,
  claim_request, in_progress_claim,
}
use aideep_websocket.NodeContent.Service.Replies.{
  IsUntouched, in_world-IsUntouched, IsEditable, IsFiltered, null-none, node_reply,
  node_reply-IsEditable,
}

role-cases : (x : Role) → (x ≡ owner) ⊎ ((x ≡ editor) ⊎ (x ≡ viewer))
role-cases owner = inl refl
role-cases editor = inr (inl refl)
role-cases viewer = inr (inr refl)

module _ {D E W : Type 0} (app : App D E W) (r : Request) where
  -- The replies to what a request asks, each in the world that the one before has left.
  abbrev pub member_reply : W → Result (Option Membership) × W
  member_reply =
      app.env.prisma.members_find_unique r.user_id r.workspace_id (λ m. is_null m.deleted_at)

  abbrev pub target_reply : W → Result (Option NodeRow) × W
  target_reply w = node_reply app r.workspace_id r.node_id (member_reply w).1

  abbrev pub key : Text
  key = RedisKeys.node_content_operation r.workspace_id r.node_id r.user_id r.idempotency_key

  abbrev pub cache_reply : W → Result (Option Text) × W
  cache_reply w = app.env.redis.get key (target_reply w).1

  abbrev pub claim_reply : W → Result Bool × W
  claim_reply w =
      app.env.redis.set_nx key (app.claims.stringify (in_progress_claim app r)) 60 (cache_reply w).1

  -- A user who may edit in the workspace of a request.
  pub record IsEditor (m : Membership) : Type 0 where
    pub user : m.user_id ≡ r.user_id
    pub workspace : m.workspace_id ≡ r.workspace_id
    pub live : m.deleted_at ≡ none
    pub role : (m.role ≡ owner) ⊎ (m.role ≡ editor)

  -- What a request shows, in the world in which it arrives, before anything is changed for it.
  pub record IsAdmitted (w : W) (m : Membership) (row : NodeRow) : Type 0 where
    pub key_min : 8 ≤ length_of r.idempotency_key
    pub key_max : length_of r.idempotency_key ≤ 128
    pub has_text : is_empty (trim r.body.markdown) ≡ false
    pub found_member : (member_reply w).0 ≡ ok (some m)
    pub may_edit : IsEditor m
    pub found_node : (target_reply w).0 ≡ ok (some row)
    pub editable : IsEditable r.workspace_id r.node_id row

  pub record IsGranted (w : W) (row : NodeRow) : Type 0 where
    pub no_record : (cache_reply w).0 ≡ ok none
    pub version : (r.body.expected_version ≡ none) ⊎ (r.body.expected_version ≡ some row.version)
    pub claimed : (claim_reply w).0 ≡ ok true

  check_version-ok :
      (expected : Option ℕ) (current : ℕ)
      → check_version expected current ≡ ok tt
      → (expected ≡ none) ⊎ (expected ≡ some current)
  unfolding check_version
  check_version-ok none current e = inl refl
  check_version-ok (some n) current e = inr (ground arith)

  check_role-ok :
      (m : Membership) → check_role (some m) ≡ ok tt → (m.role ≡ owner) ⊎ (m.role ≡ editor)
  unfolding check_role
  check_role-ok m e = elim (role-cases m.role) [
    | inl is_owner ↦ inl is_owner
    | inr (inl is_editor) ↦ inr is_editor
    | inr (inr is_viewer) ↦ ground arith
  ]

  check_workspace-asked :
      (m : Membership) (w w' : W)
      → check_workspace app.env r.user_id r.workspace_id w ≡ (ok (some m), w')
      → member_reply w ≡ (ok (some m), w')
  unfolding check_workspace
  check_workspace-asked m w w' e =
      elim (Bool-cases (is_empty r.user_id || is_empty r.workspace_id)) [
        | inl unnamed ↦ ground arith
        | inr named ↦ rw named at e
      ]

  module _ (filtered : IsFiltered app) where
    check_edit_permission-ok :
        (w w' : W)
        → check_edit_permission app r.user_id r.workspace_id w ≡ (ok tt, w')
        → (m : Membership) × (member_reply w ≡ (ok (some m), w')) × IsEditor m
    unfolding check_edit_permission check_role
    check_edit_permission-ok w w' e =
        let (found, v, asked, rest) =
          >>=-ok (check_workspace app.env r.user_id r.workspace_id) _ w e in
        elim (Option-cases found) [
          | inl absent ↦ absurd (ground arith)
          | inr (m, there) ↦
              let reply = check_workspace-asked m w v (rw there at asked) in
              let (user, workspace, live) =
                filtered.members r.user_id r.workspace_id _ w v m reply in
              let role = check_role-ok m (ground arith) in
              (
                m,
                rw (ap (λ p. p.1) rest) at reply,
                record {
                  user = user;
                  workspace = workspace;
                  live = null-none m.deleted_at live;
                  role = role;
                },
              )
        ]

    validate-ok :
        validate r ≡ ok tt
        → (8 ≤ length_of r.idempotency_key)
          × (length_of r.idempotency_key ≤ 128)
          × (is_empty (trim r.body.markdown) ≡ false)
    unfolding validate is_valid_key is_blank
    validate-ok valid = (ground arith, ground arith, ground arith)

    check_target-ok :
        (found : Option NodeRow) (row : NodeRow)
        → check_target found ≡ ok row
        → (found ≡ some row) × (is_markdown row.content ≡ true)
    unfolding check_target
    check_target-ok none row e = ground arith
    check_target-ok (some node) row e = elim (Bool-cases (is_markdown node.content)) [
      | inr other ↦ ground arith
      | inl text ↦ (ground arith, ground arith)
    ]

    admit_parts :
        (row : NodeRow) (found : Option NodeRow) (w w₁ w₂ w₃ : W)
        → lift (validate r) w ≡ (ok tt, w₁)
        → check_edit_permission app r.user_id r.workspace_id w₁ ≡ (ok tt, w₂)
        → select_node_by_id app r.workspace_id r.node_id w₂ ≡ (ok found, w₃)
        → check_target found ≡ ok row
        → (m : Membership) × IsAdmitted w m row × (w₃ ≡ (target_reply w).1)
    unfolding select_node_by_id
    admit_parts row found w w₁ w₂ w₃ valid allowed looked target =
        let (m, member, edits) =
          check_edit_permission-ok w w₂ (rw (sym (ap (λ p. p.1) valid)) at allowed) in
        let (there, text) = check_target-ok found row target in
        let (key_min, key_max, has_text) = validate-ok (ap (λ p. p.0) valid) in
        let asked : node_reply app r.workspace_id r.node_id w₂ ≡ (ok (some row), w₃) =
          rw there at looked in
        let reply : target_reply w ≡ (ok (some row), w₃) =
          ap (λ p. node_reply app r.workspace_id r.node_id p.1) member ∙ asked in
        (
          m,
          record {
            key_min = key_min;
            key_max = key_max;
            has_text = has_text;
            found_member = ap (λ p. p.0) member;
            may_edit = edits;
            found_node = ap (λ p. p.0) reply;
            editable =
                node_reply-IsEditable app filtered r.workspace_id r.node_id w₂ w₃ row asked text;
          },
          sym (ap (λ p. p.1) reply),
        )

    admit-IsAdmitted :
        (row : NodeRow) (w w' : W)
        → admit app r w ≡ (ok row, w')
        → (m : Membership) × IsAdmitted w m row × (w' ≡ (target_reply w).1)
    unfolding admit
    admit-IsAdmitted row w w' e =
        let (_, w₁, valid, e₁) = >>=-ok (lift (validate r)) _ w e in
        let (_, w₂, allowed, e₂) =
          >>=-ok (check_edit_permission app r.user_id r.workspace_id) _ w₁ e₁ in
        let (found, w₃, looked, e₃) =
          >>=-ok (select_node_by_id app r.workspace_id r.node_id) _ w₂ e₂ in
        let (m, admitted, same) =
          admit_parts row found w w₁ w₂ w₃ valid allowed looked (ap (λ p. p.0) e₃) in
        (m, admitted, sym (ap (λ p. p.1) e₃) ∙ same)

    -- The runs of a request: refused, stopped at the cache, answered from a record, performed.
    perform-IsGranted :
        (row : NodeRow) (w : W) (g : Gateway D W)
        → (cache_reply w).0 ≡ ok none
        → IsUntouched g (perform app r row (in_world (cache_reply w).1 g)).1 ⊎ IsGranted w row
    unfolding perform claim_request claim_key
    perform-IsGranted row w g absent =
        elim (Result-cases (check_version r.body.expected_version row.version)) [
          | inr (fault, stale) ↦ rw (stale, perform) (inl (refl, refl, refl, refl, refl))
          | inl (_, fresh) ↦ elim (Result-cases (claim_reply w).0) [
            | inr (fault, down) ↦ rw (fresh, perform, down) (inl (refl, refl, refl, refl, refl))
            | inl (false, taken) ↦ rw (fresh, perform, taken) (inl (refl, refl, refl, refl, refl))
            | inl (true, claimed) ↦ inr (record {
              no_record = absent;
              version = check_version-ok r.body.expected_version row.version fresh;
              claimed = claimed;
            })
          ]
        ]

    -- The runs of a request: refused, stopped at the cache, answered from a record, performed.
    execute-refused :
        (g : Gateway D W) (fault : Fault)
        → (admit app r g.manager.world).0 ≡ err fault
        → (execute_content_operation app r g).1 ≡ in_world (admit app r g.manager.world).1 g
    unfolding execute_content_operation
    execute-refused g fault refused = ground arith

    execute-cached :
        (g : Gateway D W) (row : NodeRow) (w : W)
        → admit app r g.manager.world ≡ (ok row, w)
        → w ≡ (target_reply g.manager.world).1
        → IsUntouched g (execute_content_operation app r g).1 ⊎ IsGranted g.manager.world row
    unfolding execute_content_operation
    execute-cached g row w admitted here =
        let asked = cache_reply g.manager.world in
        let same : app.env.redis.get key w ≡ asked = ap (app.env.redis.get key) here in
        elim (Result-cases asked.0) [
          | inr (fault, down) ↦ inl (ground arith)
          | inl (some raw, there) ↦ inl (ground arith)
          | inl (none, absent) ↦
              let run : execute_content_operation app r g ≡ perform app r row (in_world asked.1 g) =
                ground arith in
              elim (perform-IsGranted row g.manager.world g absent) [
                | inl still ↦ inl (rw run still)
                | inr claimed ↦ inr claimed
              ]
        ]

    -- Let a query of Prisma answer with rows that it asks for. Take the replies that the
    -- environment gives to a content operation one after another, each in the world that the one
    -- before has left: to the query for the membership, to the query for the node, to the reading
    -- of the idempotency key and to the SET NX of it. Then the operation either leaves the
    -- documents, timers, pending flushes, sockets and sent messages as they were, or its
    -- idempotency key is of 8 to 128 units and its markdown is not blank, and the replies were: a
    -- membership of its user in its workspace that is not deleted, as an owner or an editor; its
    -- node, which is in its workspace, not deleted and markdown, with the version that the request
    -- expects, if it expects any; no record; and that the key was taken.
    pub execute-IsUntouched_or_IsAdmitted :
        (g : Gateway D W)
        → IsUntouched g (execute_content_operation app r g).1
          ⊎ ((m : Membership) × (row : NodeRow) × IsAdmitted g.manager.world m row
              × IsGranted g.manager.world row)
    execute-IsUntouched_or_IsAdmitted g = elim (Result-cases (admit app r g.manager.world).0) [
      | inr (fault, refused) ↦ inl (in_world-IsUntouched g _ _ (execute-refused g fault refused))
      | inl (row, passed) ↦
          let w = (admit app r g.manager.world).1 in
          let admission : admit app r g.manager.world ≡ (ok row, w) = λ i. (passed i, w) in
          let (m, admitted, here) = admit-IsAdmitted row g.manager.world w admission in
          elim (execute-cached g row w admission here) [
            | inl still ↦ inl still
            | inr claimed ↦ inr (m, row, admitted, claimed)
          ]
    ]
