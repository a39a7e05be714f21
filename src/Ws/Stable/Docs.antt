-- ===== src/Ws/Stable/Docs.antt =====
-- The handlers of a document's messages, and the broadcasts, keep what is stable:
-- src/domain/ws/controller/ws.gateway.ts.
use aideep_websocket.Common.{
  Text, Bytes, Bool, Option, none, some, Option-cases, inl, inr, refl, Result-cases, >>=-keeps,
  catch-keeps, if-keeps, ◌==◌,
}
use aideep_websocket.Common.Dict
use aideep_websocket.App.{App}
use aideep_websocket.Env.Database.{Membership}
use aideep_websocket.Membership.{check_workspace}
use aideep_websocket.Yjs.Flush.{truthy}
use aideep_websocket.Yjs.Lifecycle.{get_or_create_doc, cleanup_node, get_doc}
use aideep_websocket.Ws.Event.{EventBody, node_delete, WsEvent, yjs_room, yjs_sync, to_others, join}
use aideep_websocket.Ws.State.{Gateway, send, on_manager, on_outside, client_data}
use aideep_websocket.Ws.Gateway.{after_broadcast, broadcast}
use aideep_websocket.Ws.YjsHandlers.{
  mark_read_only, cached_membership, remember_membership, open_doc, yjs_join_as, handle_yjs_join,
  relay_update, is_read_only, handle_yjs_sync, handle_yjs_leave, is_viewer,
}
use aideep_websocket.Ws.Stable.{IsStable}
use aideep_websocket.Ws.Stable.Handlers.{send-keeps, on_outside-keeps, send_reply-keeps}

module _ {D E W : Type 0} (app : App D E W) {P : Gateway D W → Type 0} (st : IsStable app P) where
  mark_read_only-keeps :
      (a n : Text) (b : Bool) (g : Gateway D W) → P g → P (mark_read_only a n b g)
  unfolding mark_read_only
  mark_read_only-keeps a n b g h = st.sets_data a _ g refl h

  pub handle_yjs_leave-keeps : (a n : Text) (g : Gateway D W) → P g → P (handle_yjs_leave app a n g)
  handle_yjs_leave-keeps a n g h = st.leaves a n g h

  remember_membership-keeps :
      (a ws : Text) (m : Option Membership) (g : Gateway D W)
      → P g
      → P (remember_membership app a ws m g)
  unfolding remember_membership
  remember_membership-keeps a ws m g h = st.sets_data a _ g refl h

  cached_membership-keeps :
      (a user ws : Text) (g : Gateway D W) → P g → P (cached_membership app a user ws g).1
  unfolding cached_membership
  cached_membership-keeps a user ws g h =
      elim (Option-cases (Dict.get ws (client_data a g).membership_cache)) [
        | inr (m, cached) ↦ rw (cached, cached_membership) h
        | inl asked ↦
            rw (asked, cached_membership)
              (>>=-keeps P (on_outside (check_workspace app.env user ws)) _ g
                (on_outside-keeps app st (check_workspace app.env user ws) g h)
                (λ m t k. remember_membership-keeps a ws m t k))
      ]

  open_doc-keeps :
      (a n ws : Text) (b : Bool) (g : Gateway D W) → P g → P (open_doc app a n ws b g).1
  unfolding open_doc
  open_doc-keeps a n ws b g h =
      >>=-keeps P (on_manager (get_or_create_doc app.env n ws)) _ g (st.gets n ws g h) λ doc t k.
        send-keeps app st _ refl _ (
          mark_read_only-keeps a n b _
            (st.opens a n _ (send-keeps app st (join a (yjs_room n)) refl t k)))

  yjs_join_as-keeps :
      (a user ws n : Text) (g : Gateway D W) → P g → P (yjs_join_as app a user ws n g).1
  unfolding yjs_join_as
  yjs_join_as-keeps a user ws n g h =
      >>=-keeps P (cached_membership app a user ws) _ g (cached_membership-keeps a user ws g h)
        (elim [ none ↦ λ t k. k | some m ↦ λ t k. open_doc-keeps a n ws (is_viewer m.role) t k ])

  pub handle_yjs_join-keeps : (a n : Text) (g : Gateway D W) → P g → P (handle_yjs_join app a n g).1
  unfolding handle_yjs_join
  handle_yjs_join-keeps a n g h = elim (Option-cases (truthy (client_data a g).user_id)) [
    | inl nobody ↦ rw (nobody, handle_yjs_join) h
    | inr (user, named) ↦ elim (Option-cases (truthy (client_data a g).workspace_id)) [
      | inl nowhere ↦ rw (named, handle_yjs_join, nowhere) h
      | inr (ws, entered) ↦ rw (named, handle_yjs_join, entered) (yjs_join_as-keeps a user ws n g h)
    ]
  ]

  relay_update-keeps :
      (a n : Text) (bytes : Bytes) (g : Gateway D W) → P g → P (relay_update app a n bytes g)
  unfolding relay_update
  relay_update-keeps a n bytes g h =
      let relayed = send (to_others a (yjs_room n) (yjs_sync n bytes)) g in
      let user = (client_data a relayed).user_id in
      if-keeps P (is_read_only a n g) g _ h (
        st.schedules n user relayed
          (send-keeps app st (to_others a (yjs_room n) (yjs_sync n bytes)) refl g h))

  pub handle_yjs_sync-keeps :
      (a n : Text) (bytes : Bytes) (g : Gateway D W) → P g → P (handle_yjs_sync app a n bytes g).1
  unfolding handle_yjs_sync
  handle_yjs_sync-keeps a n bytes g h = elim (Option-cases (get_doc n g.manager)) [
    | inl absent ↦ rw (absent, handle_yjs_sync) h
    | inr (doc, found) ↦ elim (Result-cases (app.env.crdt.read_sync_message doc bytes)) [
      | inr (e, bad) ↦ rw (found, handle_yjs_sync, bad) h
      | inl (answer, good) ↦
          let replied = send_reply-keeps app st a n answer.reply _ (st.sets n answer.doc g h) in
          rw (found, handle_yjs_sync, good)
            (if-keeps P (answer.message_type == 2) _ _ (relay_update-keeps a n bytes _ replied)
              replied)
    ]
  ]

  after_broadcast-keeps :
      (body : EventBody) (g : Gateway D W) → P g → P (after_broadcast app body g).1
  unfolding after_broadcast
  after_broadcast-keeps (node_delete user n) g h =
      catch-keeps P (on_manager (cleanup_node app.env n)) _ g (st.cleans n g h) (λ _ _ k. k)
  after_broadcast-keeps _ g h = h

  pub broadcast-keeps : (event : WsEvent) (g : Gateway D W) → P g → P (broadcast app event g).1
  unfolding broadcast
  broadcast-keeps event g h = after_broadcast-keeps event.body _ (send-keeps app st _ refl _ h)
