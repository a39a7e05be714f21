-- ===== src/Ws/Rooms/Tracked.antt =====
-- The moves of the gateway keep its rooms in step with the documents.
use aideep_websocket.Common.{Text, ◌≡◌, refl, Option-cases, inl, inr, Io, arith}
use aideep_websocket.Common.Dict
use aideep_websocket.App.{App}
use aideep_websocket.Yjs.Managed.{Manager}
use aideep_websocket.Yjs.DocManager.{
  add_client, remove_client, append_markdown, background_flush, flush_all,
}
use aideep_websocket.Yjs.Lifecycle.{get_or_create_doc, cleanup_node}
use aideep_websocket.Yjs.DocManager.Clients.{
  has_client-world, has_client-same_clients, has_client-add_client, has_client-remove_client,
  has_client-schedule_save, has_client-get_or_create_doc,
}
use aideep_websocket.Yjs.DocManager.NoNewClients.{
  NoNewClients, cleanup_node-NoNewClients, append_markdown-clients, fire-NoNewClients,
  background_flush-NoNewClients, flush_all-NoNewClients,
}
use aideep_websocket.Ws.Event.{leave, yjs_room}
use aideep_websocket.Ws.State.{Gateway, on_manager, send, set_data}
use aideep_websocket.Ws.Gateway.{accept}
use aideep_websocket.Ws.YjsHandlers.{track_room, untrack_room, set_doc, handle_yjs_leave}
use aideep_websocket.Ws.Counted.{
  manager-count_connection, manager-uncount_connection, rooms-count_connection,
  rooms-uncount_connection,
}
use aideep_websocket.Ws.Stable.{IsStable}
use aideep_websocket.Ws.Rooms.{
  IsTracked, in_room, in_room-track_room, in_room-untrack_room, in_room_of_rooms,
  manager-untrack_room, leave_docs-IsTracked,
}

module _ {D W : Type 0} where
  -- What adds no client and leaves the rooms alone.
  NoNewClients-IsTracked :
      (g g' : Gateway D W)
      → IsTracked g
      → NoNewClients g.manager g'.manager
      → g'.yjs_rooms ≡ g.yjs_rooms
      → IsTracked g'
  unfolding in_room
  NoNewClients-IsTracked g g' h fewer rooms = record {
    tracked = λ n a there. ground (arith, h.tracked n a (fewer n a there));
  }

  on_manager-IsTracked :
      {A : Type 0} (m : Io (Manager D W) A) (g : Gateway D W)
      → NoNewClients g.manager (m g.manager).1
      → IsTracked g
      → IsTracked (on_manager m g).1
  on_manager-IsTracked m g fewer h = NoNewClients-IsTracked g _ h fewer refl

  set_doc-NoNewClients : (n : Text) (doc : D) (s : Manager D W) → NoNewClients s (set_doc n doc s)
  unfolding set_doc
  set_doc-NoNewClients n doc s j a h = elim (Option-cases (Dict.get n s.docs)) [
    | inl absent ↦ ground arith
    | inr (m, found) ↦
        ground (arith, has_client-same_clients n j a m (record m { doc = doc }) s s found refl refl)
  ]

module _ {D E W : Type 0} (app : App D E W) where
  -- A client that joins is tracked at once.
  track-add-IsTracked :
      (a n : Text) (g : Gateway D W)
      → IsTracked g
      → IsTracked (track_room a n (record g { manager = add_client app.env n a g.manager }))
  unfolding track_room
  track-add-IsTracked a n g h = record {
    tracked = λ j t there.
        let added = record g { manager = add_client app.env n a g.manager } in
        ground (
          arith,
          h.tracked j t,
          has_client-add_client app.env n a j t g.manager there,
          in_room-track_room a n j t added,
          in_room_of_rooms j t g added refl,
        );
  }

  untrack-remove-IsTracked :
      (a n : Text) (g : Gateway D W)
      → IsTracked g
      → IsTracked (untrack_room a n (record g { manager = remove_client app.env n a g.manager }))
  untrack-remove-IsTracked a n g h = record {
    tracked = λ j t there.
        let removed = record g { manager = remove_client app.env n a g.manager } in
        ground (
          arith,
          h.tracked j t,
          manager-untrack_room a n removed,
          has_client-remove_client app.env n a j t g.manager,
          in_room-untrack_room a n j t removed,
          in_room_of_rooms j t g removed refl,
        );
  }

  pub IsTracked-IsStable : IsStable app IsTracked
  unfolding handle_yjs_leave send set_data accept
  IsTracked-IsStable = record {
    sends = λ c g stays h. NoNewClients-IsTracked g _ h (λ n a k. k) refl;
    sets_data = λ a d g user h. NoNewClients-IsTracked g _ h (λ n b k. k) refl;
    accepts = λ a u g h.
        NoNewClients-IsTracked g _ h (λ n b k. rw (manager-count_connection a _) at k)
          (rooms-count_connection a _);
    uncounts = λ a g h.
        NoNewClients-IsTracked g _ h (λ n b k. rw (manager-uncount_connection a g) at k)
          (rooms-uncount_connection a g);
    worlds = λ w g h.
        NoNewClients-IsTracked g _ h (λ n a k. rw (has_client-world n a w g.manager) at k) refl;
    gets = λ n ws g h.
        on_manager-IsTracked (get_or_create_doc app.env n ws) g
          (λ j t k. rw (has_client-get_or_create_doc app.env n j t ws g.manager) at k) h;
    opens = track-add-IsTracked;
    leaves = λ a n g h.
        untrack-remove-IsTracked a n (send (leave a (yjs_room n)) g)
          (NoNewClients-IsTracked g _ h (λ n b k. k) refl);
    leaves_all = leave_docs-IsTracked app;
    schedules = λ n user g h.
        NoNewClients-IsTracked g _ h
          (λ j t k. rw (has_client-schedule_save app.env n j t user g.manager) at k) refl;
    sets = λ n doc g h. NoNewClients-IsTracked g _ h (set_doc-NoNewClients n doc g.manager) refl;
    cleans = λ n g h.
        on_manager-IsTracked (cleanup_node app.env n) g
          (cleanup_node-NoNewClients app.env n g.manager) h;
    appends = λ n ws markdown user g h.
        on_manager-IsTracked (append_markdown app.env app.jobs n ws markdown user) g
          (λ j t k.
            rw (append_markdown-clients app.env app.jobs n ws markdown user g.manager j t) at k)
          h;
    flushes = λ n g h.
        on_manager-IsTracked (background_flush app.env app.jobs n) g
          (background_flush-NoNewClients app.env app.jobs n g.manager) h;
    flushes_all = λ g h.
        on_manager-IsTracked (flush_all app.env app.jobs) g
          (flush_all-NoNewClients app.env app.jobs g.manager) h;
    fires = λ timer g h. NoNewClients-IsTracked g _ h (fire-NoNewClients timer g.manager) refl;
  }
