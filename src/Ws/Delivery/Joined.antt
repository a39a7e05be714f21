-- ===== src/Ws/Delivery/Joined.antt =====
-- src/domain/ws/controller/ws.gateway.ts: every socket with a user is in the room of this user.
use aideep_websocket.Common.{
  Text, ◌≡◌, refl, sym, Bool, true, false, Bool-cases, inl, inr, some, Option-cases, List, [], ◌∷◌,
  text_eq, text_eq_iff, arith, if◌then◌else◌,
}
use aideep_websocket.Common.Dict
use aideep_websocket.App.{App}
use aideep_websocket.Ws.Event.{Command, Message, join, leave, user_room, yjs_room}
use aideep_websocket.Ws.State.{Gateway, SocketData, client_data, set_data, send}
use aideep_websocket.Ws.Gateway.{
  accept, count_connection, uncount_connection, leave_docs, remove_from_docs,
}
use aideep_websocket.Ws.YjsHandlers.{handle_yjs_leave, untrack_room, track_room}
use aideep_websocket.Ws.Stable.{IsStable, is_leave}
use aideep_websocket.Ws.Delivery.{
  IsSocketIo, was_disconnected, in_room-append, is_exit-others, is_exit-yjs_room,
}

some_injective : {u v : Text} → some u ≡ some v → u ≡ v
some_injective e = ground arith

module _ {D W : Type 0} where
  user-set_data :
      (a b : Text) (d : SocketData) (g : Gateway D W)
      → (client_data b (set_data a d g)).user_id
        ≡ (if text_eq a b then d.user_id else (client_data b g).user_id)
  unfolding client_data set_data
  user-set_data a b d g = ground (arith, Dict.get-insert a b d g.sockets)

module _ {D W : Type 0} (a : Text) (g : Gateway D W) where
  sockets-count_connection : (count_connection a g).sockets ≡ g.sockets
  unfolding count_connection
  sockets-count_connection = ground arith

  sent-count_connection : (count_connection a g).sent ≡ g.sent
  unfolding count_connection
  sent-count_connection = ground arith

  sockets-uncount_connection : (uncount_connection a g).sockets ≡ g.sockets
  unfolding uncount_connection
  sockets-uncount_connection = ground arith

  sent-uncount_connection : (uncount_connection a g).sent ≡ g.sent
  unfolding uncount_connection
  sent-uncount_connection = ground arith

module _ {D W : Type 0} {in_room : Text → Text → List Command → Bool}
    {inbox : Text → List Command → List Message} (io : IsSocketIo in_room inbox) where
  -- A socket with a user that the server has not disconnected is in the room of this user.
  abbrev pub IsJoined : Gateway D W → Type 0
  IsJoined g =
      (a u : Text)
      → (client_data a g).user_id ≡ some u
      → was_disconnected a g.sent ≡ false
      → in_room a (user_room u) g.sent ≡ true

  pub same-IsJoined :
      (g g' : Gateway D W) → g'.sockets ≡ g.sockets → g'.sent ≡ g.sent → IsJoined g → IsJoined g'
  unfolding client_data
  same-IsJoined g g' sockets sent h a u named here =
      rw sent (h a u (rw sockets at named) (rw sent at here))

  pub send-IsJoined :
      (c : Command) (g : Gateway D W) → is_leave c ≡ false → IsJoined g → IsJoined (send c g)
  unfolding send client_data
  send-IsJoined c g other h a u named =
      in_room-append io a u c g.sent (is_exit-others a (user_room u) c other) (h a u named)

  pub set_data-IsJoined :
      (a : Text) (d : SocketData) (g : Gateway D W)
      → d.user_id ≡ (client_data a g).user_id
      → IsJoined g
      → IsJoined (set_data a d g)
  unfolding set_data
  set_data-IsJoined a d g same h b u named here =
      h b u (ground (arith, user-set_data a b d g, text_eq_iff a b)) here

  joins-IsJoined :
      (a : Text) (d : SocketData) (user : Text) (g : Gateway D W)
      → d.user_id ≡ some user
      → IsJoined g
      → IsJoined (send (join a (user_room user)) (set_data a d g))
  unfolding set_data send client_data
  joins-IsJoined a d user g is h b u named = elim (Bool-cases (text_eq a b)) [
    | inl self ↦ λ _.
        let same : a ≡ b = (text_eq_iff a b).0 self in
        let it : some user ≡ some u = ground (arith, user-set_data a b d g) in
        let joined = io.joins a (user_room user) g.sent in
        rw (sym same, sym (some_injective it)) joined
    | inr other ↦
        in_room-append io b u (join a (user_room user)) g.sent (λ _. refl)
          (h b u (ground (arith, user-set_data a b d g)))
  ]

  pub accept-IsJoined : (a user : Text) (g : Gateway D W) → IsJoined g → IsJoined (accept a user g)
  unfolding accept
  accept-IsJoined a user g h =
      let d = record (client_data a g) { user_id = some user } in
      let entered = send (join a (user_room user)) (set_data a d g) in
      same-IsJoined entered _ (sockets-count_connection a entered) (sent-count_connection a entered)
        (joins-IsJoined a d user g refl h)

  pub uncount_connection-IsJoined :
      (a : Text) (g : Gateway D W) → IsJoined g → IsJoined (uncount_connection a g)
  uncount_connection-IsJoined a g h =
      same-IsJoined g _ (sockets-uncount_connection a g) (sent-uncount_connection a g) h

  untrack_room-IsJoined :
      (a n : Text) (g : Gateway D W) → IsJoined g → IsJoined (untrack_room a n g)
  unfolding untrack_room
  untrack_room-IsJoined a n g h = elim (Option-cases (Dict.get a g.yjs_rooms)) [
    | inl absent ↦ rw (absent, untrack_room) h
    | inr (nodes, found) ↦ rw (found, untrack_room) (same-IsJoined g _ refl refl h)
  ]

module _ {D E W : Type 0} (app : App D E W) {in_room : Text → Text → List Command → Bool}
    {inbox : Text → List Command → List Message} (io : IsSocketIo in_room inbox) where
  remove_from_docs-IsJoined :
      (a : Text) (nodes : List Text) (g : Gateway D W)
      → IsJoined io g
      → IsJoined io (remove_from_docs app a nodes g)
  unfolding remove_from_docs
  remove_from_docs-IsJoined a [] g h = h
  remove_from_docs-IsJoined a (n ∷ rest) g h =
      remove_from_docs-IsJoined a rest _ (same-IsJoined io g _ refl refl h)

  leave_docs-IsJoined :
      (a : Text) (g : Gateway D W) → IsJoined io g → IsJoined io (leave_docs app a g)
  unfolding leave_docs
  leave_docs-IsJoined a g h = elim (Option-cases (Dict.get a g.yjs_rooms)) [
    | inl absent ↦ rw (absent, leave_docs) h
    | inr (nodes, found) ↦
        rw (found, leave_docs)
          (same-IsJoined io _ _ refl refl (remove_from_docs-IsJoined a nodes g h))
  ]

  -- No room of a document is the room of a user.
  handle_yjs_leave-IsJoined :
      (a n : Text) (g : Gateway D W) → IsJoined io g → IsJoined io (handle_yjs_leave app a n g)
  unfolding handle_yjs_leave send client_data
  handle_yjs_leave-IsJoined a n g h = untrack_room-IsJoined io a n _ λ b u named.
      in_room-append io b u (leave a (yjs_room n)) g.sent (λ _. is_exit-yjs_room b a n u)
        (h b u named)

  pub IsJoined-IsStable : IsStable app (IsJoined io)
  unfolding track_room
  IsJoined-IsStable = record {
    sends = λ c g stays h. send-IsJoined io c g stays h;
    sets_data = set_data-IsJoined io;
    accepts = accept-IsJoined io;
    uncounts = uncount_connection-IsJoined io;
    worlds = λ w g h. same-IsJoined io g _ refl refl h;
    gets = λ n ws g h. same-IsJoined io g _ refl refl h;
    opens = λ a n g h. same-IsJoined io g _ refl refl h;
    leaves = handle_yjs_leave-IsJoined;
    leaves_all = leave_docs-IsJoined;
    schedules = λ n user g h. same-IsJoined io g _ refl refl h;
    sets = λ n doc g h. same-IsJoined io g _ refl refl h;
    cleans = λ n g h. same-IsJoined io g _ refl refl h;
    appends = λ n ws markdown user g h. same-IsJoined io g _ refl refl h;
    flushes = λ n g h. same-IsJoined io g _ refl refl h;
    flushes_all = λ g h. same-IsJoined io g _ refl refl h;
    fires = λ timer g h. same-IsJoined io g _ refl refl h;
  }
