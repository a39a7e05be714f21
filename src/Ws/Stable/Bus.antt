-- ===== src/Ws/Stable/Bus.antt =====
-- Content operations and messages of the event bus keep what is stable: src/domain/node-content and
-- src/domain/event-bus.
use aideep_websocket.Common.{
  Text, Bytes, true, false, Option, none, some, inl, inr, refl, Result-cases, Io, pure, lift, ◌>>=◌,
  >>=-keeps, catch-keeps, if-keeps, ◌||◌, is_empty, ◌==◌,
}
use aideep_websocket.App.{App}
use aideep_websocket.Env.Database.{NodeRow}
use aideep_websocket.Yjs.DocManager
use aideep_websocket.Ws.State.{Gateway, on_manager, on_outside}
use aideep_websocket.Ws.Gateway.{broadcast_yjs_update}
use aideep_websocket.Ws.Stable.{IsStable}
use aideep_websocket.Ws.Stable.Handlers.{send-keeps, on_outside-keeps}
use aideep_websocket.Ws.Stable.Docs.{broadcast-keeps}
use aideep_websocket.NodeContent.Operation.{NodeBodyPatch}
use aideep_websocket.NodeContent.Service.{
  Request, admit, perform, cache_key, append_or_release, execute_content_operation, check_version,
  claim_request, record_response, append_patch, apply_claimed, claim_patch, claim_and_apply,
  patch_key, patch_target, patch_found, select_node_by_id, apply_node_body_patch, is_blank,
}
use aideep_websocket.EventBus.Contract.{
  Payload, of_workspace_event, yjs_update, node_body_patch, unknown, Envelope, contract_version,
}
use aideep_websocket.EventBus.Subscriber.{
  dispatch, handle_envelope, parse_and_handle, handle_message,
}

module _ {D E W : Type 0} (app : App D E W) {P : Gateway D W → Type 0} (st : IsStable app P) where
  broadcast_yjs_update-keeps :
      (n : Text) (bytes : Bytes) (g : Gateway D W) → P g → P (broadcast_yjs_update app n bytes g)
  unfolding broadcast_yjs_update
  broadcast_yjs_update-keeps n bytes g h = send-keeps app st _ refl g h

  append_markdown-keeps :
      (n ws markdown user : Text) (g : Gateway D W)
      → P g
      → P (on_manager (DocManager.append_markdown app.env app.jobs n ws markdown user) g).1
  append_markdown-keeps n ws markdown user g h = st.appends n ws markdown user g h

  append_or_release-keeps :
      (key n ws markdown user : Text) (g : Gateway D W)
      → P g
      → P (append_or_release app key n ws markdown user g).1
  unfolding append_or_release
  append_or_release-keeps key n ws markdown user g h =
      catch-keeps P (on_manager (DocManager.append_markdown app.env app.jobs n ws markdown user)) _
        g (append_markdown-keeps n ws markdown user g h)
        λ e t k.
          >>=-keeps P (on_outside (app.env.redis.del key)) _ t
            (on_outside-keeps app st (app.env.redis.del key) t k) (λ _ _ l. l)

  perform-keeps : (r : Request) (row : NodeRow) (g : Gateway D W) → P g → P (perform app r row g).1
  unfolding perform
  perform-keeps r row g h =
      >>=-keeps P (lift (check_version r.body.expected_version row.version)) _ g h λ _ t k.
        >>=-keeps P (on_outside (claim_request app r)) _ t
          (on_outside-keeps app st (claim_request app r) t k)
          λ _ u l.
            >>=-keeps P
              (append_or_release app (cache_key app r) r.node_id r.workspace_id r.body.markdown
                r.user_id)
              _ u
              (append_or_release-keeps (cache_key app r) r.node_id r.workspace_id r.body.markdown
                r.user_id u l)
              λ appended v m.
                on_outside-keeps app st (record_response app r row appended) _
                  (broadcast_yjs_update-keeps r.node_id appended.update v m)

  pub execute_content_operation-keeps :
      (r : Request) (g : Gateway D W) → P g → P (execute_content_operation app r g).1
  unfolding execute_content_operation
  execute_content_operation-keeps r g h =
      >>=-keeps P (on_outside (admit app r)) _ g (on_outside-keeps app st (admit app r) g h)
        λ row t k.
          >>=-keeps P (on_outside (app.env.redis.get (cache_key app r))) _ t
            (on_outside-keeps app st (app.env.redis.get (cache_key app r)) t k)
            (elim [ none ↦ λ u l. perform-keeps r row u l | some raw ↦ λ u l. l ])

  append_patch-keeps : (p : NodeBodyPatch) (g : Gateway D W) → P g → P (append_patch app p g).1
  unfolding append_patch
  append_patch-keeps p g h =
      >>=-keeps P
        (on_manager (
          DocManager.append_markdown app.env app.jobs p.node_id p.workspace_id p.markdown
            p.actor_id))
        _ g (append_markdown-keeps p.node_id p.workspace_id p.markdown p.actor_id g h)
        (λ appended t k. broadcast_yjs_update-keeps p.node_id appended.update t k)

  apply_claimed-keeps : (p : NodeBodyPatch) (g : Gateway D W) → P g → P (apply_claimed app p g).1
  unfolding apply_claimed
  apply_claimed-keeps p g h =
      catch-keeps P (append_patch app p) _ g (append_patch-keeps p g h)
        (λ _ t k. on_outside-keeps app st (app.env.redis.del (patch_key app p)) t k)

  claim_and_apply-keeps :
      (p : NodeBodyPatch) (g : Gateway D W) → P g → P (claim_and_apply app p g).1
  unfolding claim_and_apply
  claim_and_apply-keeps p g h =
      >>=-keeps P (on_outside (claim_patch app p)) _ g
        (on_outside-keeps app st (claim_patch app p) g h)
        (elim [ true ↦ λ t k. apply_claimed-keeps p t k | false ↦ λ t k. k ])

  patch_found-keeps :
      (p : NodeBodyPatch) (found : Option NodeRow) (g : Gateway D W)
      → P g
      → P (patch_found app p found g).1
  unfolding patch_found
  patch_found-keeps p found g h =
      if-keeps (λ (m : Io (Gateway D W) (Unit {0})). P (m g).1) (patch_target found)
        (claim_and_apply app p) (pure tt) (claim_and_apply-keeps p g h) h

  pub apply_node_body_patch-keeps :
      (p : NodeBodyPatch) (g : Gateway D W) → P g → P (apply_node_body_patch app p g).1
  unfolding apply_node_body_patch
  apply_node_body_patch-keeps p g h =
      let look = select_node_by_id app p.workspace_id p.node_id in
      if-keeps (λ (m : Io (Gateway D W) (Unit {0})). P (m g).1)
        (is_blank p.markdown || is_empty p.command_event_id) (pure tt)
        (on_outside look >>= patch_found app p) h
        (>>=-keeps P (on_outside look) (patch_found app p) g (on_outside-keeps app st look g h)
          (λ found t k. patch_found-keeps p found t k))

  dispatch-keeps : (payload : Payload) (g : Gateway D W) → P g → P (dispatch app payload g).1
  unfolding dispatch
  dispatch-keeps (of_workspace_event event) g h = broadcast-keeps app st event g h
  dispatch-keeps (yjs_update n text) g h = broadcast_yjs_update-keeps n _ g h
  dispatch-keeps (node_body_patch p) g h =
      catch-keeps P (apply_node_body_patch app p) _ g (apply_node_body_patch-keeps p g h)
        (λ _ _ k. k)
  dispatch-keeps (unknown kind) g h = h

  handle_envelope-keeps : (e : Envelope) (g : Gateway D W) → P g → P (handle_envelope app e g).1
  unfolding handle_envelope
  handle_envelope-keeps e g h =
      if-keeps (λ (m : Io (Gateway D W) (Unit {0})). P (m g).1) (e.v == contract_version)
        (dispatch app e.payload) (pure tt) (dispatch-keeps e.payload g h) h

  parse_and_handle-keeps :
      (message : Text) (g : Gateway D W) → P g → P (parse_and_handle app message g).1
  unfolding parse_and_handle
  parse_and_handle-keeps message g h = elim (Result-cases (app.envelopes.parse message)) [
    | inr (e, bad) ↦ rw (bad, parse_and_handle) h
    | inl (envelope, good) ↦ rw (good, parse_and_handle) (handle_envelope-keeps envelope g h)
  ]

  pub handle_message-keeps :
      (message : Text) (g : Gateway D W) → P g → P (handle_message app message g).1
  unfolding handle_message
  handle_message-keeps message g h =
      catch-keeps P (parse_and_handle app message) _ g (parse_and_handle-keeps message g h)
        (λ _ _ k. k)
