-- ===== src/NodeContent/Service/Retry.antt =====
-- Idempotency: what a request with a used key gets, and who may append.
use aideep_websocket.Common.{
  ℕ, Text, ◌≡◌, inl, inr, true, false, Option, none, some, Result-cases, ok, Io, lift, >>=-ok,
  arith, text_eq_refl,
}
use aideep_websocket.App.{App}
use aideep_websocket.Env.Database.{NodeRow}
use aideep_websocket.Yjs.DocManager.{AppendResult}
use aideep_websocket.Ws.State.{Gateway, in_world, on_outside}
use aideep_websocket.Ws.Gateway.{broadcast_yjs_update}
use aideep_websocket.NodeContent.Operation.{OperationResponse, Claim}
use aideep_websocket.NodeContent.Service.{
  Request, admit, perform, cache_key, execute_content_operation, answer_raw, answer_claim,
  check_version, claim_request, record_response, done_claim, response_ttl, append_or_release,
}

module _ {D E W : Type 0} (app : App D E W) (r : Request) where
  pub execute-stored :
      (g : Gateway D W) (row : NodeRow) (w w' : W) (raw : Text)
      → admit app r g.manager.world ≡ (ok row, w)
      → app.env.redis.get (cache_key app r) w ≡ (ok (some raw), w')
      → execute_content_operation app r g
        ≡ (answer_raw app (app.request_hash r.body) raw, in_world w' g)
  unfolding execute_content_operation
  execute-stored g row w w' raw admitted stored = ground arith

  record_response-ok :
      (row : NodeRow) (appended : AppendResult) (w w' : W) (response : OperationResponse)
      → record_response app r row appended w ≡ (ok response, w')
      → (v : W) × (app.env.redis.set
            (cache_key app r)
            (app.claims.stringify (done_claim app r response))
            response_ttl
            v
          ≡ (ok tt, w'))
        × (response.duplicate ≡ false)
  unfolding record_response
  record_response-ok row appended w w' response e =
      let (id, v, drawn, rest) = >>=-ok app.env.random_uuid _ w e in (v, ground arith, ground arith)

  on_outside-ok :
      {A : Type 0} (m : Io W A) (g g' : Gateway D W) (a : A)
      → on_outside m g ≡ (ok a, g')
      → m g.manager.world ≡ (ok a, g'.manager.world)
  on_outside-ok m g g' a e = ground arith

  perform-recorded :
      (row : NodeRow) (g g' : Gateway D W) (response : OperationResponse)
      → perform app r row g ≡ (ok response, g')
      → (v : W) × (app.env.redis.set
            (cache_key app r)
            (app.claims.stringify (done_claim app r response))
            response_ttl
            v
          ≡ (ok tt, g'.manager.world))
        × (response.duplicate ≡ false)
  unfolding perform
  perform-recorded row g g' response e =
      let (_, g₁, checked, e₁) =
        >>=-ok (lift (check_version r.body.expected_version row.version)) _ g e in
      let (_, g₂, claimed, e₂) = >>=-ok (on_outside (claim_request app r)) _ g₁ e₁ in
      let (appended, g₃, done, e₃) =
        >>=-ok
          (append_or_release app (cache_key app r) r.node_id r.workspace_id r.body.markdown
            r.user_id)
          _ g₂ e₂ in
      let sent = broadcast_yjs_update app r.node_id appended.update g₃ in
      record_response-ok row appended sent.manager.world g'.manager.world response
        (on_outside-ok (record_response app r row appended) sent g' response e₃)

  answer_claim-duplicate :
      (hash : Text) (claim : Claim) (response : OperationResponse)
      → answer_claim hash claim ≡ ok response
      → response.duplicate ≡ true
  unfolding answer_claim
  answer_claim-duplicate hash claim response e = ground arith

  answer_raw-duplicate :
      (hash raw : Text) (response : OperationResponse)
      → answer_raw app hash raw ≡ ok response
      → response.duplicate ≡ true
  unfolding answer_raw
  answer_raw-duplicate hash raw response e = elim (Result-cases (app.claims.parse raw)) [
    | inr (fault, bad) ↦ ground arith
    | inl (claim, good) ↦ ground (arith, answer_claim-duplicate hash claim response)
  ]

  execute-recorded :
      (g g' : Gateway D W) (response : OperationResponse)
      → execute_content_operation app r g ≡ (ok response, g')
      → response.duplicate ≡ false
      → (v : W) × (app.env.redis.set
            (cache_key app r)
            (app.claims.stringify (done_claim app r response))
            response_ttl
            v
          ≡ (ok tt, g'.manager.world))
  unfolding execute_content_operation
  execute-recorded g g' response e first =
      let (row, g₁, admitted, e₁) = >>=-ok (on_outside (admit app r)) _ g e in
      let (cached, g₂, asked, e₂) =
        >>=-ok (on_outside (app.env.redis.get (cache_key app r))) _ g₁ e₁ in
      after cached g₂ row e₂
    where
      after :
          (cached : Option Text) (g₂ : Gateway D W) (row : NodeRow)
          → (elim cached as (λ _. Io (Gateway D W) OperationResponse) [
            | some raw ↦ lift (answer_raw app (app.request_hash r.body) raw)
            | none ↦ perform app r row
          ])
              g₂
            ≡ (ok response, g')
          → (v : W) × (app.env.redis.set
                (cache_key app r)
                (app.claims.stringify (done_claim app r response))
                response_ttl
                v
              ≡ (ok tt, g'.manager.world))
      after none g₂ row e₂ =
          let (v, stored, _) = perform-recorded row g₂ g' response e₂ in (v, stored)
      after (some raw) g₂ row e₂ =
          ground (arith, answer_raw-duplicate (app.request_hash r.body) raw response)

  -- Let a Redis write that succeeds be read back from the state that it left, and let the record of
  -- the finished operation parse to itself. If a content operation returns a response that is no
  -- duplicate, and the same request still passes validation, permission and the look-up of its node
  -- in the state that it left without changing that state, then the request sent again returns the
  -- same response marked as a duplicate and changes nothing.
  pub execute-execute :
      (g g' : Gateway D W) (response : OperationResponse) (row : NodeRow)
      → ((key value : Text) (ttl : ℕ) (w w' : W)
          → app.env.redis.set key value ttl w ≡ (ok tt, w')
          → app.env.redis.get key w' ≡ (ok (some value), w'))
      → app.claims.parse (app.claims.stringify (done_claim app r response))
        ≡ ok (done_claim app r response)
      → execute_content_operation app r g ≡ (ok response, g')
      → response.duplicate ≡ false
      → admit app r g'.manager.world ≡ (ok row, g'.manager.world)
      → execute_content_operation app r g' ≡ (ok (record response { duplicate = true }), g')
  unfolding answer_raw answer_claim done_claim
  execute-execute g g' response row reads_back parses first fresh admitted =
      let (v, stored) = execute-recorded g g' response first fresh in
      let raw = app.claims.stringify (done_claim app r response) in
      ground (
        arith,
        execute-stored g' row g'.manager.world g'.manager.world raw admitted
            (reads_back (cache_key app r) raw response_ttl v g'.manager.world stored),
        text_eq_refl (app.request_hash r.body),
      )
