-- ===== src/Ws/Admission.antt =====
-- src/domain/ws/controller/ws.gateway.ts: whom a request to open a document lets in, and with which
-- rights.
use aideep_websocket.Common.{
  Text, ◌≡◌, refl, ◌⊎◌, inl, inr, Bool, true, some, Option-cases, ok, pure, >>=-ok, arith,
  text_eq_refl,
}
use aideep_websocket.Common.Dict
use aideep_websocket.Common.Dict.{get-insert_self}
use aideep_websocket.App.{App}
use aideep_websocket.Env.Database.{Membership}
use aideep_websocket.Membership.{check_workspace}
use aideep_websocket.Yjs.Flush.{truthy}
use aideep_websocket.Yjs.Lifecycle.{get_or_create_doc}
use aideep_websocket.Ws.Event.{Command}
use aideep_websocket.Ws.State.{
  Gateway, Ack, yjs_joined, client_data, set_data, send, on_manager, on_outside,
}
use aideep_websocket.Ws.YjsHandlers.{
  cached_membership, open_doc, yjs_join_as, handle_yjs_join, is_viewer, is_read_only,
  mark_read_only, track_room,
}
use aideep_websocket.Ws.Rooms.{in_room, in_room-track_room, in_room_of_rooms}

module _ {D W : Type 0} where
  is_read_only-mark_read_only :
      (a n : Text) (b : Bool) (g : Gateway D W) → is_read_only a n (mark_read_only a n b g) ≡ b
  unfolding is_read_only mark_read_only client_data set_data
  is_read_only-mark_read_only a n b g =
      let d = client_data a g in
      ground (
        arith,
        get-insert_self a (record d { yjs_read_only = Dict.insert n b d.yjs_read_only }) g.sockets,
        get-insert_self n b d.yjs_read_only,
      )

  is_read_only-send :
      (a n : Text) (c : Command) (g : Gateway D W)
      → is_read_only a n (send c g) ≡ is_read_only a n g
  unfolding is_read_only send client_data
  is_read_only-send a n c g = refl

  in_room-send_marked :
      (a n : Text) (b : Bool) (c : Command) (g : Gateway D W)
      → in_room n a (send c (mark_read_only a n b (track_room a n g))) ≡ true
  unfolding send mark_read_only set_data
  in_room-send_marked a n b c g = ground (
    arith,
    in_room_of_rooms n a (track_room a n g) (send c (mark_read_only a n b (track_room a n g))) refl,
    in_room-track_room a n n a g,
    text_eq_refl a,
    text_eq_refl n,
  )

  -- The reply of a document that was opened, and what is left behind.
  abbrev pub IsOpened : Text → Text → Bool → Ack → Gateway D W → Type 0
  IsOpened a n read_only ack g =
      (ack ≡ yjs_joined read_only) × (is_read_only a n g ≡ read_only) × (in_room n a g ≡ true)

  IsOpened-with_room :
      (a n : Text) (b : Bool) (c : Command) (ack : Ack) (g g' : Gateway D W)
      → pure (yjs_joined b) (send c (mark_read_only a n b (track_room a n g))) ≡ (ok ack, g')
      → IsOpened a n b ack g'
  IsOpened-with_room a n b c ack g g' e =
      let marked = mark_read_only a n b (track_room a n g) in
      let same : g' ≡ send c marked = ground arith in
      rw same (
        ground arith,
        ground (
          arith,
          is_read_only-send a n c marked,
          is_read_only-mark_read_only a n b (track_room a n g),
        ),
        in_room-send_marked a n b c g,
      )

module _ {D E W : Type 0} (app : App D E W) where
  open_doc-IsOpened :
      (a n ws : Text) (read_only : Bool) (g g' : Gateway D W) (ack : Ack)
      → open_doc app a n ws read_only g ≡ (ok ack, g')
      → IsOpened a n read_only ack g'
  unfolding open_doc
  open_doc-IsOpened a n ws read_only g g' ack e =
      let (doc, t, got, rest) = >>=-ok (on_manager (get_or_create_doc app.env n ws)) _ g e in
      IsOpened-with_room a n read_only _ ack _ g' rest

  -- A membership from the cache of the socket, or the answer of the database.
  abbrev pub IsMembership : Text → Text → Text → Membership → Gateway D W → Type 0
  IsMembership a user ws m g =
      (Dict.get ws (client_data a g).membership_cache ≡ some (some m))
      ⊎ ((check_workspace app.env user ws g.manager.world).0 ≡ ok (some m))

  cached_membership-IsMembership :
      (a user ws : Text) (m : Membership) (g g' : Gateway D W)
      → cached_membership app a user ws g ≡ (ok (some m), g')
      → IsMembership a user ws m g
  unfolding cached_membership
  cached_membership-IsMembership a user ws m g g' e =
      elim (Option-cases (Dict.get ws (client_data a g).membership_cache)) [
        | inr (known, cached) ↦ inl (ground arith)
        | inl unknown ↦
            let (found, t, asked, rest) =
              >>=-ok (on_outside (check_workspace app.env user ws)) _ g
                (rw (unknown, cached_membership) at e) in
            inr (ground arith)
      ]

  yjs_join_as-admits :
      (a user ws n : Text) (b : Bool) (g g' : Gateway D W)
      → yjs_join_as app a user ws n g ≡ (ok (yjs_joined b), g')
      → (m : Membership) × IsMembership a user ws m g
        × (b ≡ is_viewer m.role)
        × (is_read_only a n g' ≡ b)
        × (in_room n a g' ≡ true)
  unfolding yjs_join_as
  yjs_join_as-admits a user ws n b g g' e =
      let (found, t, asked, rest) = >>=-ok (cached_membership app a user ws) _ g e in
      elim (Option-cases found) [
        | inl nobody ↦ ground arith
        | inr (m, member) ↦
            let (ack, mark, room) =
              open_doc-IsOpened a n ws (is_viewer m.role) t g' (yjs_joined b) (ground arith) in
            (
              m,
              cached_membership-IsMembership a user ws m g t (ground arith),
              ground arith,
              ground arith,
              room,
            )
      ]

  -- A request to open a document that is let in comes from a socket with a user and a current
  -- workspace, for which a membership was in the cache of the socket or was found by the query; the
  -- reply says whether this membership is that of a viewer, the socket is marked to be read only
  -- for the document exactly then, and the document is among the rooms that the gateway tracks for
  -- it.
  pub handle_yjs_join-admits :
      (a n : Text) (b : Bool) (g g' : Gateway D W)
      → handle_yjs_join app a n g ≡ (ok (yjs_joined b), g')
      → (user ws : Text) × (truthy (client_data a g).user_id ≡ some user)
        × (truthy (client_data a g).workspace_id ≡ some ws)
        × ((m : Membership) × IsMembership a user ws m g
            × (b ≡ is_viewer m.role)
            × (is_read_only a n g' ≡ b)
            × (in_room n a g' ≡ true))
  unfolding handle_yjs_join
  handle_yjs_join-admits a n b g g' e =
      let d = client_data a g in
      elim (Option-cases (truthy d.user_id)) [
        | inl anonymous ↦ ground arith
        | inr (user, known) ↦ elim (Option-cases (truthy d.workspace_id)) [
          | inl nowhere ↦ ground arith
          | inr (ws, current) ↦
              (user, ws, known, current, yjs_join_as-admits a user ws n b g g' (ground arith))
        ]
      ]
