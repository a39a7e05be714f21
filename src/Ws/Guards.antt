-- ===== src/Ws/Guards.antt =====
-- src/domain/ws/controller/ws.gateway.ts: what a socket without the rights for a message changes.
use mathlib.Core.List.{append-nil}
use aideep_websocket.Common.{
  Text, Bytes, ◌≡◌, refl, sym, Bool, true, Option, none, some, Option-cases, inl, inr, List, [],
  ◌∷◌, ◌++◌, Result-cases, ok, err, Fault, arith, pure, >>=-ok,
}
use aideep_websocket.Common.Dict
use aideep_websocket.Common.Dict.{get-insert_self}
use aideep_websocket.App.{App}
use aideep_websocket.Env.Documents.{SyncReply}
use aideep_websocket.Yjs.Managed.{ManagedDoc, put_doc}
use aideep_websocket.Yjs.Flush.{truthy}
use aideep_websocket.Yjs.Lifecycle.{get_doc, get_or_create_doc}
use aideep_websocket.Membership.{check_workspace}
use aideep_websocket.Ws.Event.{PresenceMember, Command, to_socket, yjs_sync}
use aideep_websocket.Ws.Presence.{upsert_presence}
use aideep_websocket.Ws.State.{
  Gateway, set_data, yjs_joined, on_manager, on_outside, in_world, Ack, AckError, refused, joined,
  client_data, send,
}
use aideep_websocket.Ws.Gateway.{
  JoinWorkspace, handle_join, join_as, enter_and_announce, enter_workspace, send_cached_awareness,
  handle_disconnect, leave_presence, uncount_connection, broadcast_presence,
}
use aideep_websocket.Ws.YjsHandlers.{
  cached_membership, remember_membership, open_doc, yjs_join_as, handle_yjs_join, is_viewer,
  handle_yjs_sync, relay_update, send_reply, set_doc, is_read_only,
}

-- The bytes that a socket gets back, if there are any.
abbrev pub replies : Text → Text → Bytes → List Command
replies socket node_id [] = []
replies socket node_id (b ∷ bytes) = to_socket socket (yjs_sync node_id (b ∷ bytes)) ∷ []

module _ {D E W : Type 0} (app : App D E W) where
  pub sent-send_reply :
      (a n : Text) (bytes : Bytes) (g : Gateway D W)
      → ((send_reply a n bytes g).manager ≡ g.manager)
        × ((send_reply a n bytes g).sent ≡ g.sent ++ replies a n bytes)
        × ((send_reply a n bytes g).sockets ≡ g.sockets)
  unfolding send_reply send
  sent-send_reply a n [] g = (refl, sym (append-nil g.sent), refl)
  sent-send_reply a n (b ∷ bytes) g = (refl, refl, refl)

  -- When a socket that may only read a document sends a sync message that can be read, the document
  -- in memory becomes what the message makes of it; the socket gets its reply, nothing is sent to
  -- others, no timer is set and the outside world is left alone.
  pub handle_yjs_sync-read_only :
      (a n : Text) (bytes : Bytes) (g : Gateway D W) (m : ManagedDoc D) (answer : SyncReply D)
      → Dict.get n g.manager.docs ≡ some m
      → app.env.crdt.read_sync_message m.doc bytes ≡ ok answer
      → is_read_only a n g ≡ true
      → let g' = (handle_yjs_sync app a n bytes g).1 in
        (g'.sent ≡ g.sent ++ replies a n answer.reply)
        × (g'.manager.timers ≡ g.manager.timers)
        × (g'.manager.world ≡ g.manager.world)
        × (Dict.get n g'.manager.docs ≡ some (record m { doc = answer.doc }))
  unfolding handle_yjs_sync relay_update set_doc put_doc get_doc is_read_only client_data
  handle_yjs_sync-read_only a n bytes g m answer found read locked = ground (
    arith,
    sent-send_reply a n answer.reply (record g { manager = set_doc n answer.doc g.manager }),
    get-insert_self n (record m { doc = answer.doc }) g.manager.docs,
  )

  leave_presence-kept :
      (ws user : Option Text) (g : Gateway D W)
      → ((leave_presence app ws user g).1.yjs_rooms ≡ g.yjs_rooms)
        × ((leave_presence app ws user g).1.manager.docs ≡ g.manager.docs)
  unfolding leave_presence broadcast_presence send
  leave_presence-kept none user g = (refl, refl)
  leave_presence-kept (some ws) none g = (refl, refl)
  leave_presence-kept (some ws) (some user) g = ground arith

  uncount_connection-kept :
      (a : Text) (g : Gateway D W)
      → ((uncount_connection a g).yjs_rooms ≡ g.yjs_rooms)
        × ((uncount_connection a g).manager ≡ g.manager)
  unfolding uncount_connection
  uncount_connection-kept a g = ground arith

  -- A disconnection whose handling fails leaves the rooms that the gateway tracks and the documents
  -- in memory, with their clients, as they were.
  pub handle_disconnect-err :
      (a : Text) (g g' : Gateway D W) (fault : Fault)
      → handle_disconnect app a g ≡ (err fault, g')
      → (g'.yjs_rooms ≡ g.yjs_rooms) × (g'.manager.docs ≡ g.manager.docs)
  unfolding handle_disconnect
  handle_disconnect-err a g g' fault e =
      let ws = truthy (client_data a g).workspace_id in
      let user = truthy (client_data a g).user_id in
      elim (Result-cases (leave_presence app ws user (uncount_connection a g)).0) [
        | inl (_, done) ↦ ground arith
        | inr (failure, failed) ↦ ground (
          arith,
          uncount_connection-kept a g,
          leave_presence-kept ws user (uncount_connection a g),
        )
      ]

  ack_of_pure : (g g' : Gateway D W) (ack : Ack) → pure joined g ≡ (ok ack, g') → ack ≡ joined
  ack_of_pure g g' ack e = ground arith

  -- Past the test of the membership, nothing is refused.
  enter_and_announce-joined :
      (a user : Text) (payload : JoinWorkspace) (g g' : Gateway D W) (ack : Ack)
      → enter_and_announce app a user payload g ≡ (ok ack, g')
      → ack ≡ joined
  unfolding enter_and_announce
  enter_and_announce-joined a user payload g g' ack e =
      let member : PresenceMember = record {
        user_id = user;
        user_name = payload.user_name;
        color = payload.color;
        profile = payload.profile;
      } in
      let (_, g₂, e₂, r₂) =
        >>=-ok (send_cached_awareness app a payload.workspace_id) _
          (enter_workspace app a payload.workspace_id g) e in
      let (_, g₃, e₃, r₃) =
        >>=-ok (on_outside (upsert_presence app payload.workspace_id member)) _ g₂ r₂ in
      let (_, g₄, e₄, r₄) = >>=-ok (broadcast_presence app payload.workspace_id) _ g₃ r₃ in
      ack_of_pure g₄ g' ack r₄

  join_as-refused :
      (a user : Text) (payload : JoinWorkspace) (g g' : Gateway D W) (why : AckError)
      → join_as app a user payload g ≡ (ok (refused why), g')
      → g' ≡ in_world g'.manager.world g
  unfolding join_as
  join_as-refused a user payload g g' why e =
      let asked = check_workspace app.env user payload.workspace_id g.manager.world in
      elim (Result-cases asked.0) [
        | inr (fault, down) ↦ ground arith
        | inl (none, absent) ↦ ground arith
        | inl (some m, member) ↦
            ground (
              arith,
              enter_and_announce-joined a user payload (in_world asked.1 g) g' (refused why),
            )
      ]

  -- A request to join a workspace that is refused changes nothing of the server; only the outside
  -- world may have moved.
  pub handle_join-refused :
      (a : Text) (payload : JoinWorkspace) (g g' : Gateway D W) (why : AckError)
      → handle_join app a payload g ≡ (ok (refused why), g')
      → g' ≡ in_world g'.manager.world g
  unfolding handle_join
  handle_join-refused a payload g g' why e =
      elim (Option-cases (truthy (client_data a g).user_id)) [
        | inl anonymous ↦ ground arith
        | inr (user, known) ↦ ground (arith, join_as-refused a user payload g g' why)
      ]

  cached_membership-kept :
      (a user ws : Text) (g : Gateway D W)
      → let g' = (cached_membership app a user ws g).1 in
        (g'.manager.docs ≡ g.manager.docs) × (g'.yjs_rooms ≡ g.yjs_rooms) × (g'.sent ≡ g.sent)
  unfolding cached_membership remember_membership set_data
  cached_membership-kept a user ws g = (ground arith, ground arith, ground arith)

  ack_of_open :
      (g g' : Gateway D W) (b : Bool) (ack : Ack)
      → pure (yjs_joined b) g ≡ (ok ack, g')
      → ack ≡ yjs_joined b
  ack_of_open g g' b ack e = ground arith

  open_doc-joined :
      (a n ws : Text) (read_only : Bool) (g g' : Gateway D W) (ack : Ack)
      → open_doc app a n ws read_only g ≡ (ok ack, g')
      → ack ≡ yjs_joined read_only
  unfolding open_doc
  open_doc-joined a n ws read_only g g' ack e =
      let (_, g₁, e₁, r₁) = >>=-ok (on_manager (get_or_create_doc app.env n ws)) _ g e in
      ack_of_open _ g' read_only ack r₁

  yjs_join_as-refused :
      (a user ws n : Text) (g g' : Gateway D W) (why : AckError)
      → yjs_join_as app a user ws n g ≡ (ok (refused why), g')
      → (g'.manager.docs ≡ g.manager.docs) × (g'.yjs_rooms ≡ g.yjs_rooms) × (g'.sent ≡ g.sent)
  unfolding yjs_join_as
  yjs_join_as-refused a user ws n g g' why e =
      let asked = cached_membership app a user ws g in
      elim (Result-cases asked.0) [
        | inr (fault, down) ↦ ground arith
        | inl (none, absent) ↦ ground (arith, cached_membership-kept a user ws g)
        | inl (some m, member) ↦
            ground (arith, open_doc-joined a n ws (is_viewer m.role) asked.1 g' (refused why))
      ]

  -- A request to open a document that is refused leaves the documents in memory, the tracked rooms
  -- and the sent messages as they were.
  pub handle_yjs_join-refused :
      (a n : Text) (g g' : Gateway D W) (why : AckError)
      → handle_yjs_join app a n g ≡ (ok (refused why), g')
      → (g'.manager.docs ≡ g.manager.docs) × (g'.yjs_rooms ≡ g.yjs_rooms) × (g'.sent ≡ g.sent)
  unfolding handle_yjs_join
  handle_yjs_join-refused a n g g' why e =
      let d = client_data a g in
      elim (Option-cases (truthy d.user_id)) [
        | inl anonymous ↦ ground arith
        | inr (user, known) ↦ elim (Option-cases (truthy d.workspace_id)) [
          | inl nowhere ↦ ground arith
          | inr (ws, current) ↦ ground (arith, yjs_join_as-refused a user ws n g g' why)
        ]
      ]
