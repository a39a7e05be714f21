-- ===== src/Ws/Access.antt =====
-- src/domain/ws/controller/ws.gateway.ts: what the handlers of a document's messages do not ask.
use aideep_websocket.Common.{
  Text, Bytes, ◌≡◌, refl, ap, ◌∙◌, Bool, false, Option, none, some, Option-cases, inl, inr, [], ◌∷◌,
  ◌++◌, Result, Result-cases, ok,
}
use aideep_websocket.Common.Dict
use aideep_websocket.Common.Dict.{get-insert_self}
use aideep_websocket.App.{App}
use aideep_websocket.Membership.{check_workspace}
use aideep_websocket.Env.Documents.{SyncReply}
use aideep_websocket.Yjs.Managed.{ManagedDoc, Manager, put_doc, clear_timeout, set_timeout}
use aideep_websocket.Yjs.Flush.{truthy}
use aideep_websocket.Yjs.Lifecycle.{get_doc, get_or_create_doc}
use aideep_websocket.Yjs.DocManager.{schedule_save}
use aideep_websocket.Ws.Event.{to_others, yjs_sync, yjs_room}
use aideep_websocket.Ws.State.{Gateway, client_data, set_data, send}
use aideep_websocket.Ws.YjsHandlers.{
  cached_membership, remember_membership, open_doc, yjs_join_as, handle_yjs_join, is_viewer,
  handle_yjs_sync, relay_update, mark_read_only, track_room, send_reply, set_doc, is_read_only,
}
use aideep_websocket.Ws.Guards.{replies, sent-send_reply}

module _ {D E W : Type 0} (app : App D E W) where
  -- A save that is scheduled leaves the text of the document.
  get_doc-schedule_save :
      (n : Text) (user : Option Text) (s : Manager D W)
      → get_doc n (schedule_save app.env n user s) ≡ get_doc n s
  unfolding get_doc schedule_save put_doc clear_timeout set_timeout
  get_doc-schedule_save n user s = elim (Option-cases (Dict.get n s.docs)) [
    | inl missing ↦ rw (missing, get_doc, schedule_save, missing) refl
    | inr (m, found) ↦ rw (found, get_doc, schedule_save, get-insert_self) refl
  ]

  get_doc-set_doc :
      (n : Text) (doc : D) (s : Manager D W) (m : ManagedDoc D)
      → Dict.get n s.docs ≡ some m
      → get_doc n (set_doc n doc s) ≡ some doc
  unfolding get_doc set_doc put_doc
  get_doc-set_doc n doc s m found = rw (found, get_doc, set_doc, get-insert_self) refl

  relayed :
      (a n : Text) (bytes : Bytes) (g : Gateway D W)
      → is_read_only a n g ≡ false
      → ((relay_update app a n bytes g).sent
          ≡ g.sent ++ to_others a (yjs_room n) (yjs_sync n bytes) ∷ [])
        × (get_doc n (relay_update app a n bytes g).manager ≡ get_doc n g.manager)
  unfolding relay_update send
  relayed a n bytes g writable = rw writable (refl, get_doc-schedule_save n _ g.manager)

  unmarked_replied :
      (a n : Text) (reply : Bytes) (g : Gateway D W) (s : Manager D W)
      → Dict.get n (client_data a g).yjs_read_only ≡ none
      → is_read_only a n (send_reply a n reply (record g { manager = s })) ≡ false
  unfolding is_read_only client_data
  unmarked_replied a n reply g s unmarked =
      rw ((sent-send_reply app a n reply (record g { manager = s })).2, unmarked) refl

  -- A sync message with an update for a document in memory, which can be read, from a socket that
  -- has no mark for this document, such as one that has never opened it or joined its workspace:
  -- the document becomes what the message makes of it, and after the reply to the sender, if there
  -- is one, the message is sent to the others in the room of the document.
  pub handle_yjs_sync-not_opened :
      (a n : Text) (bytes : Bytes) (g : Gateway D W) (m : ManagedDoc D) (answer : SyncReply D)
      → Dict.get n g.manager.docs ≡ some m
      → app.env.crdt.read_sync_message m.doc bytes ≡ ok answer
      → answer.message_type ≡ 2
      → Dict.get n (client_data a g).yjs_read_only ≡ none
      → let g' = (handle_yjs_sync app a n bytes g).1 in
        (g'.sent
          ≡ (g.sent ++ replies a n answer.reply)
            ++ to_others a (yjs_room n) (yjs_sync n bytes) ∷ [])
        × (get_doc n g'.manager ≡ some answer.doc)
  unfolding handle_yjs_sync get_doc
  handle_yjs_sync-not_opened a n bytes g m answer found read update unmarked =
      let set = record g { manager = set_doc n answer.doc g.manager } in
      let sent = sent-send_reply app a n answer.reply set in
      let (went, kept) =
        relayed a n bytes (send_reply a n answer.reply set)
          (unmarked_replied a n answer.reply g set.manager unmarked) in
      rw (found, handle_yjs_sync, get_doc, read, update)
        (
          went ∙ ap (λ c. c ++ to_others a (yjs_room n) (yjs_sync n bytes) ∷ []) sent.1,
          kept ∙ ap (get_doc n) sent.0 ∙ get_doc-set_doc n answer.doc g.manager m found,
        )

  -- The gateway with another workspace on record for a document.
  abbrev pub filed_under : Text → Text → ManagedDoc D → Gateway D W → Gateway D W
  filed_under n ws m g = record g { manager = put_doc n (record m { workspace_id = ws }) g.manager }

  -- What a socket learns and gets from a request.
  abbrev pub IsSameOutcome : {A : Type 0} → Result A × Gateway D W → Result A × Gateway D W → Type 0
  IsSameOutcome p q =
      (p.0 ≡ q.0)
      × (p.1.sent ≡ q.1.sent)
      × (p.1.sockets ≡ q.1.sockets)
      × (p.1.yjs_rooms ≡ q.1.yjs_rooms)

  open_doc-filed_under :
      (a n ws ws' : Text) (b : Bool) (m : ManagedDoc D) (g : Gateway D W)
      → Dict.get n g.manager.docs ≡ some m
      → IsSameOutcome (open_doc app a n ws b (filed_under n ws' m g)) (open_doc app a n ws b g)
  unfolding open_doc get_or_create_doc send mark_read_only set_data track_room put_doc client_data
  open_doc-filed_under a n ws ws' b m g found =
      rw (found, open_doc, get_or_create_doc, get-insert_self) (refl, refl, refl, refl)

  yjs_join_as-filed_under :
      (a user ws n ws' : Text) (m : ManagedDoc D) (g : Gateway D W)
      → Dict.get n g.manager.docs ≡ some m
      → IsSameOutcome
          (yjs_join_as app a user ws n (filed_under n ws' m g))
          (yjs_join_as app a user ws n g)
  unfolding yjs_join_as cached_membership remember_membership put_doc client_data set_data
  yjs_join_as-filed_under a user ws n ws' m g found =
      elim (Option-cases (Dict.get ws (client_data a g).membership_cache)) [
        | inr (none, cached) ↦ rw (cached, yjs_join_as, cached_membership) (refl, refl, refl, refl)
        | inr (some member, cached) ↦
            rw (cached, yjs_join_as, cached_membership)
              (open_doc-filed_under a n ws ws' (is_viewer member.role) m g found)
        | inl unknown ↦ elim (Result-cases (check_workspace app.env user ws g.manager.world).0) [
          | inr (fault, down) ↦
              rw (unknown, yjs_join_as, cached_membership, down) (refl, refl, refl, refl)
          | inl (none, nobody) ↦
              rw (unknown, yjs_join_as, cached_membership, nobody) (refl, refl, refl, refl)
          | inl (some member, there) ↦
              rw (unknown, yjs_join_as, cached_membership, there)
                (open_doc-filed_under a n ws ws' (is_viewer member.role) m _ found)
        ]
      ]

  -- Put any other workspace on record for a document in memory. A request of any socket to open
  -- this document is then answered as before, whether it is let in or refused and with which
  -- rights, and the same is sent, kept as data of the sockets and tracked as rooms of the gateway:
  -- nothing of this depends on the workspace that the document is of.
  pub handle_yjs_join-any_workspace :
      (a n ws : Text) (m : ManagedDoc D) (g : Gateway D W)
      → Dict.get n g.manager.docs ≡ some m
      → IsSameOutcome (handle_yjs_join app a n (filed_under n ws m g)) (handle_yjs_join app a n g)
  unfolding handle_yjs_join put_doc client_data
  handle_yjs_join-any_workspace a n ws m g found =
      elim (Option-cases (truthy (client_data a g).user_id)) [
        | inl nobody ↦ rw (nobody, handle_yjs_join) (refl, refl, refl, refl)
        | inr (user, known) ↦ elim (Option-cases (truthy (client_data a g).workspace_id)) [
          | inl nowhere ↦ rw (known, handle_yjs_join, nowhere) (refl, refl, refl, refl)
          | inr (current, entered) ↦
              rw (known, handle_yjs_join, entered)
                (yjs_join_as-filed_under a user current n ws m g found)
        ]
      ]
