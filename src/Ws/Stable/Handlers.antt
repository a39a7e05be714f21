-- ===== src/Ws/Stable/Handlers.antt =====
-- Every handler of the gateway keeps what is stable: src/domain/ws/controller/ws.gateway.ts.
use aideep_websocket.Common.{
  Text, Bytes, ◌≡◌, false, [], ◌∷◌, refl, Option, none, some, Option-cases, inl, inr, Result,
  Result-cases, ok, Io, >>=-keeps, if-keeps, is_empty, not, ◌||◌,
}
use aideep_websocket.App.{App}
use aideep_websocket.Membership.{check_workspace}
use aideep_websocket.Yjs.Flush.{truthy}
use aideep_websocket.Ws.Event.{Command}
use aideep_websocket.Ws.Presence.{
  list_presence, remove_presence, upsert_presence, get_cached_awareness, cache_awareness,
}
use aideep_websocket.Ws.State.{Gateway, send, on_outside, client_data}
use aideep_websocket.Ws.Gateway.{
  Handshake, handshake_token, uncount_connection, handle_connection, broadcast_presence,
  leave_presence, handle_disconnect, JoinWorkspace, send_cached_awareness, enter_workspace, join_as,
  enter_and_announce, handle_join, handle_ws_awareness, relay_ws_awareness, is_current,
}
use aideep_websocket.Ws.YjsHandlers.{send_reply}
use aideep_websocket.Ws.Stable.{IsStable, is_leave}

module _ {D E W : Type 0} (app : App D E W) {P : Gateway D W → Type 0} (st : IsStable app P) where
  pub on_outside-keeps : {A : Type 0} (m : Io W A) (g : Gateway D W) → P g → P (on_outside m g).1
  on_outside-keeps m g h = st.worlds (m g.manager.world).1 g h

  pub send-keeps : (c : Command) → is_leave c ≡ false → (g : Gateway D W) → P g → P (send c g)
  send-keeps c stays g h = st.sends c g stays h

  -- A command changes no data of a socket.
  user-send :
      (a : Text) (c : Command) (g : Gateway D W)
      → (client_data a g).user_id ≡ (client_data a (send c g)).user_id
  unfolding send client_data
  user-send a c g = refl

  pub uncount_connection-keeps : (a : Text) (g : Gateway D W) → P g → P (uncount_connection a g)
  uncount_connection-keeps a g h = st.uncounts a g h

  pub send_reply-keeps :
      (a n : Text) (bytes : Bytes) (g : Gateway D W) → P g → P (send_reply a n bytes g)
  unfolding send_reply
  send_reply-keeps a n [] g h = h
  send_reply-keeps a n (b ∷ bytes) g h = send-keeps _ refl g h

  pub handle_connection-keeps :
      (a : Text) (hs : Handshake) (g : Gateway D W) → P g → P (handle_connection app a hs g)
  unfolding handle_connection
  handle_connection-keeps a hs g h = elim (Option-cases (handshake_token hs)) [
    | inl absent ↦ rw (absent, handle_connection) (send-keeps _ refl g h)
    | inr (token, found) ↦ elim (Result-cases (app.verify token)) [
      | inr (e, bad) ↦ rw (found, handle_connection, bad) (send-keeps _ refl g h)
      | inl (user, good) ↦ elim (Option-cases (truthy user)) [
        | inl nobody ↦ rw (found, handle_connection, good, nobody) (send-keeps _ refl g h)
        | inr (u, named) ↦ rw (found, handle_connection, good, named) (st.accepts a u g h)
      ]
    ]
  ]

  broadcast_presence-keeps : (ws : Text) (g : Gateway D W) → P g → P (broadcast_presence app ws g).1
  unfolding broadcast_presence
  broadcast_presence-keeps ws g h =
      >>=-keeps P (on_outside (list_presence app ws)) _ g
        (on_outside-keeps (list_presence app ws) g h) (λ members t k. send-keeps _ refl t k)

  pub leave_presence-keeps :
      (ws user : Option Text) (g : Gateway D W) → P g → P (leave_presence app ws user g).1
  unfolding leave_presence
  leave_presence-keeps (some ws) (some user) g h =
      >>=-keeps P (on_outside (remove_presence app ws user)) _ g
        (on_outside-keeps (remove_presence app ws user) g h)
        (λ _ t k. broadcast_presence-keeps ws t k)
  leave_presence-keeps _ _ g h = h

  pub handle_disconnect-keeps : (a : Text) (g : Gateway D W) → P g → P (handle_disconnect app a g).1
  unfolding handle_disconnect
  handle_disconnect-keeps a g h =
      >>=-keeps P
        (leave_presence app (truthy (client_data a g).workspace_id)
          (truthy (client_data a g).user_id))
        _ (uncount_connection a g) (leave_presence-keeps _ _ _ (uncount_connection-keeps a g h))
        (λ _ t k. st.leaves_all a t k)

  send_cached_awareness-keeps :
      (a ws : Text) (g : Gateway D W) → P g → P (send_cached_awareness app a ws g).1
  unfolding send_cached_awareness
  send_cached_awareness-keeps a ws g h =
      >>=-keeps P (on_outside (get_cached_awareness app ws)) _ g
        (on_outside-keeps (get_cached_awareness app ws) g h)
        (elim [ none ↦ λ t k. k | some bytes ↦ λ t k. send-keeps _ refl t k ])

  enter_workspace-keeps : (a ws : Text) (g : Gateway D W) → P g → P (enter_workspace app a ws g)
  unfolding enter_workspace
  enter_workspace-keeps a ws g h =
      send-keeps _ refl _ (st.sets_data a _ _ (user-send _ _ _) (send-keeps _ refl g h))

  join_as-keeps :
      (a user : Text) (p : JoinWorkspace) (g : Gateway D W) → P g → P (join_as app a user p g).1
  unfolding join_as enter_and_announce
  join_as-keeps a user p g h =
      >>=-keeps P (on_outside (check_workspace app.env user p.workspace_id)) _ g
        (on_outside-keeps (check_workspace app.env user p.workspace_id) g h)
        (elim [
          | none ↦ λ t k. k
          | some m ↦ λ t k.
              >>=-keeps P (send_cached_awareness app a p.workspace_id) _
                (enter_workspace app a p.workspace_id t)
                (send_cached_awareness-keeps a p.workspace_id _
                  (enter_workspace-keeps a p.workspace_id t k))
                λ _ u l.
                  >>=-keeps P (on_outside (upsert_presence app p.workspace_id _)) _ u
                    (on_outside-keeps (upsert_presence app p.workspace_id _) u l)
                    λ _ v m'.
                      >>=-keeps P (broadcast_presence app p.workspace_id) _ v
                        (broadcast_presence-keeps p.workspace_id v m') (λ _ _ l'. l')
        ])

  pub handle_join-keeps :
      (a : Text) (p : JoinWorkspace) (g : Gateway D W) → P g → P (handle_join app a p g).1
  unfolding handle_join
  handle_join-keeps a p g h = elim (Option-cases (truthy (client_data a g).user_id)) [
    | inl nobody ↦ rw (nobody, handle_join) h
    | inr (user, named) ↦ rw (named, handle_join) (join_as-keeps a user p g h)
  ]

  relay_ws_awareness-keeps :
      (a ws : Text) (bytes : Bytes) (g : Gateway D W)
      → P g
      → P (relay_ws_awareness app a ws bytes g).1
  unfolding relay_ws_awareness
  relay_ws_awareness-keeps a ws bytes g h =
      >>=-keeps P (on_outside (cache_awareness app ws bytes)) _ g
        (on_outside-keeps (cache_awareness app ws bytes) g h) (λ _ t k. send-keeps _ refl t k)

  pub handle_ws_awareness-keeps :
      (a ws : Text) (bytes : Option Bytes) (g : Gateway D W)
      → P g
      → P (handle_ws_awareness app a ws bytes g).1
  unfolding handle_ws_awareness
  handle_ws_awareness-keeps a ws none g h = h
  handle_ws_awareness-keeps a ws (some bytes) g h =
      if-keeps (λ (r : Result (Unit {0}) × Gateway D W). P r.1)
        (is_empty ws || not (is_current ws (client_data a g).workspace_id)) (ok tt, g)
        (relay_ws_awareness app a ws bytes g) h (relay_ws_awareness-keeps a ws bytes g h)
