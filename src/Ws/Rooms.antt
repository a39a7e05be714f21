-- ===== src/Ws/Rooms.antt =====
-- The rooms that the gateway tracks for a socket, against the clients of the documents.
pub mod Tracked
use aideep_websocket.Common.{
  Text, Bytes, ◌≡◌, refl, sym, ◌∙◌, Bool, true, false, not, ◌&&◌, ◌||◌, Option, none, some, List,
  [], ◌∷◌, Option-cases, inl, inr, Result, Result-cases, ok, err, Io, pure, >>=-keeps, catch-keeps,
  arith, text_eq, text_eq_iff, text_eq_refl, is_empty, if◌then◌else◌, Bool-cases,
}
use aideep_websocket.Common.Dict
use aideep_websocket.Common.Dict.{get-insert, get-remove}
use aideep_websocket.Common.Items
use aideep_websocket.Common.Items.{has-add, has-delete}
use aideep_websocket.App.{App}
use aideep_websocket.Yjs.Managed.{Manager}
use aideep_websocket.Yjs.DocManager.{remove_client}
use aideep_websocket.Yjs.DocManager.Clients.{has_client, has_client-remove_client}
use aideep_websocket.Ws.State.{Gateway, send, update}
use aideep_websocket.Ws.Gateway.{remove_from_docs, leave_docs}
use aideep_websocket.Ws.YjsHandlers.{track_room, untrack_room, room_list}

-- Whether a node is among the rooms of a socket.
unfoldable pub in_room : {D W : Type 0} → Text → Text → Gateway D W → Bool
in_room node_id socket g = Items.has node_id (room_list (Dict.get socket g.yjs_rooms))

-- Every client of a document is tracked: the gateway will find it when the socket goes.
pub record IsTracked {D W : Type 0} (g : Gateway D W) : Type 0 where
  pub tracked : (n a : Text) → has_client n a g.manager ≡ true → in_room n a g ≡ true

module _ {D W : Type 0} where
  pub in_room_of_rooms :
      (j t : Text) (g g' : Gateway D W)
      → g'.yjs_rooms ≡ g.yjs_rooms
      → in_room j t g' ≡ in_room j t g
  unfolding in_room
  in_room_of_rooms j t g g' e = rw (e, in_room)

  pub manager-untrack_room :
      (a n : Text) (g : Gateway D W) → (untrack_room a n g).manager ≡ g.manager
  unfolding untrack_room
  manager-untrack_room a n g = ground arith

  pub in_room-track_room :
      (a n j t : Text) (g : Gateway D W)
      → in_room j t (track_room a n g) ≡ (in_room j t g || (text_eq a t && text_eq n j))
  unfolding in_room track_room
  in_room-track_room a n j t g = ground (
    arith,
    text_eq_iff a t,
    text_eq_iff n j,
    get-insert a t (Items.add n (room_list (Dict.get a g.yjs_rooms))) g.yjs_rooms,
    has-add n j (room_list (Dict.get a g.yjs_rooms)),
  )

  pub in_room-untrack_room :
      (a n j t : Text) (g : Gateway D W)
      → in_room j t (untrack_room a n g) ≡ (in_room j t g && not (text_eq a t && text_eq n j))
  unfolding in_room untrack_room Items.has
  in_room-untrack_room a n j t g = elim (Option-cases (Dict.get a g.yjs_rooms)) [
    | inl absent ↦ ground (arith, text_eq_iff a t)
    | inr (nodes, found) ↦ ground (
      arith,
      text_eq_iff a t,
      text_eq_iff n j,
      get-insert a t (Items.delete n nodes) g.yjs_rooms,
      get-remove a t g.yjs_rooms,
      has-delete n j nodes,
    )
  ]

module _ {D E W : Type 0} (app : App D E W) where
  pub has_client-remove_from_docs :
      (a : Text) (nodes : List Text) (j t : Text) (g : Gateway D W)
      → has_client j t (remove_from_docs app a nodes g).manager
        ≡ (has_client j t g.manager && not (text_eq a t && Items.has j nodes))
  unfolding remove_from_docs Items.has
  has_client-remove_from_docs a [] j t g = ground arith
  has_client-remove_from_docs a (n ∷ rest) j t g = ground (
    arith,
    has_client-remove_from_docs a rest j t
        (record g { manager = remove_client app.env n a g.manager }),
    has_client-remove_client app.env n a j t g.manager,
  )

  pub rooms-remove_from_docs :
      (a : Text) (nodes : List Text) (g : Gateway D W)
      → (remove_from_docs app a nodes g).yjs_rooms ≡ g.yjs_rooms
  unfolding remove_from_docs
  rooms-remove_from_docs a [] g = refl
  rooms-remove_from_docs a (n ∷ rest) g =
      rooms-remove_from_docs a rest (record g { manager = remove_client app.env n a g.manager })

  -- A socket that leaves its documents is a client of none.
  pub leave_docs-gone :
      (a n : Text) (g : Gateway D W)
      → IsTracked g
      → has_client n a (leave_docs app a g).manager ≡ false
  unfolding leave_docs in_room Items.has
  leave_docs-gone a n g h = elim (Option-cases (Dict.get a g.yjs_rooms)) [
    | inl absent ↦ elim (Bool-cases (has_client n a g.manager)) [
      | inl there ↦ ground (arith, h.tracked n a there)
      | inr gone ↦ ground arith
    ]
    | inr (nodes, found) ↦ elim (Bool-cases (has_client n a g.manager)) [
      | inl there ↦
          ground
            (arith, h.tracked n a there, has_client-remove_from_docs a nodes n a g, text_eq_refl a)
      | inr gone ↦ ground (arith, has_client-remove_from_docs a nodes n a g)
    ]
  ]

  pub leave_docs-rooms :
      (a : Text) (g : Gateway D W) → Dict.get a (leave_docs app a g).yjs_rooms ≡ none
  unfolding leave_docs
  leave_docs-rooms a g = elim (Option-cases (Dict.get a g.yjs_rooms)) [
    | inl absent ↦ ground arith
    | inr (nodes, found) ↦
        ground (arith, Dict.get-remove_self a (remove_from_docs app a nodes g).yjs_rooms)
  ]

  pub leave_docs-IsTracked :
      (a : Text) (g : Gateway D W) → IsTracked g → IsTracked (leave_docs app a g)
  unfolding leave_docs in_room
  leave_docs-IsTracked a g h = record {
    tracked = λ j t there. elim (Option-cases (Dict.get a g.yjs_rooms)) [
      | inl absent ↦ ground (arith, h.tracked j t)
      | inr (nodes, found) ↦ ground (
        arith,
        h.tracked j t,
        has_client-remove_from_docs a nodes j t g,
        rooms-remove_from_docs a nodes g,
        get-remove a t g.yjs_rooms,
        text_eq_iff a t,
      )
    ];
  }
