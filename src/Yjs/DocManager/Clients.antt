-- ===== src/Yjs/DocManager/Clients.antt =====
-- Who has a document open, after each operation of the manager.
use aideep_websocket.Common.{
  ℕ, Text, ◌≡◌, refl, ◌∙◌, Bool, true, false, not, ◌&&◌, ◌||◌, Option, none, some, arith, text_eq,
  text_eq_iff, if◌then◌else◌, Option-cases, inl, inr, Result-cases, is_empty,
}
use aideep_websocket.Common.Dict
use aideep_websocket.Common.Dict.{get-insert, get-remove}
use aideep_websocket.Common.Items
use aideep_websocket.Common.Items.{has-add, has-delete}
use aideep_websocket.Env.{Env}
use aideep_websocket.Yjs.Managed.{
  ManagedDoc, Manager, Timer, TimerAction, save, evict, put_doc, drop_doc, clear_timeout,
  set_timeout,
}
use aideep_websocket.Yjs.Lifecycle.{
  wake, destroy_doc, evict_doc, run_action, fire, register_doc, load_doc, get_or_create_doc,
  find_state, build_doc,
}
use aideep_websocket.Yjs.DocManager.{add_client, remove_client, leave_idle, schedule_save}

-- Whether a document is in memory with a socket among its clients.
unfoldable pub has_client : {D W : Type 0} → Text → Text → Manager D W → Bool
has_client node_id socket s = elim (Dict.get node_id s.docs) [
  | none ↦ false
  | some managed ↦ Items.has socket managed.clients
]

module _ {D W : Type 0} where
  pub has_client-put_doc :
      (n j t : Text) (m : ManagedDoc D) (s : Manager D W)
      → has_client j t (put_doc n m s)
        ≡ (if text_eq n j then Items.has t m.clients else has_client j t s)
  unfolding has_client put_doc
  has_client-put_doc n j t m s = ground (arith, get-insert n j m s.docs)

  pub has_client-drop_doc :
      (n j t : Text) (s : Manager D W)
      → has_client j t (drop_doc n s) ≡ (if text_eq n j then false else has_client j t s)
  unfolding has_client drop_doc
  has_client-drop_doc n j t s = ground (arith, get-remove n j s.docs)

  pub has_client-clear_timeout :
      (j t : Text) (h : Option ℕ) (s : Manager D W)
      → has_client j t (clear_timeout h s) ≡ has_client j t s
  unfolding has_client clear_timeout
  has_client-clear_timeout j t none s = refl
  has_client-clear_timeout j t (some h) s = refl

  pub has_client-set_timeout :
      (j t : Text) (due : ℕ) (action : TimerAction) (s : Manager D W)
      → has_client j t (set_timeout due action s) ≡ has_client j t s
  unfolding has_client set_timeout
  has_client-set_timeout j t due action s = refl

  pub has_client-found :
      (n t : Text) (m : ManagedDoc D) (s : Manager D W)
      → Dict.get n s.docs ≡ some m
      → has_client n t s ≡ Items.has t m.clients
  unfolding has_client
  has_client-found n t m s found = rw (found, has_client)

  pub has_client-absent :
      (n t : Text) (s : Manager D W) → Dict.get n s.docs ≡ none → has_client n t s ≡ false
  unfolding has_client
  has_client-absent n t s absent = rw (absent, has_client)

  pub has_client-world :
      (j t : Text) (w : W) (s : Manager D W)
      → has_client j t (record s { world = w }) ≡ has_client j t s
  unfolding has_client
  has_client-world j t w s = refl

  pub has_client_of_docs :
      (j t : Text) (s s' : Manager D W) → s'.docs ≡ s.docs → has_client j t s' ≡ has_client j t s
  unfolding has_client
  has_client_of_docs j t s s' e = rw (e, has_client)

  -- A document put back with its clients as they were.
  pub has_client-same_clients :
      (n j t : Text) (m m' : ManagedDoc D) (s s' : Manager D W)
      → Dict.get n s.docs ≡ some m
      → m'.clients ≡ m.clients
      → has_client j t s' ≡ has_client j t s
      → has_client j t (put_doc n m' s') ≡ has_client j t s
  has_client-same_clients n j t m m' s s' found same before =
      ground
        (arith, text_eq_iff n j, has_client-put_doc n j t m' s', has_client-found n t m s found)

  pub has_client-wake :
      (n j t : Text) (m : ManagedDoc D) (s : Manager D W)
      → Dict.get n s.docs ≡ some m
      → has_client j t (wake n m s) ≡ has_client j t s
  unfolding wake
  has_client-wake n j t m s found =
      has_client-same_clients n j t m (record m { idle_timer = none }) s
        (clear_timeout m.idle_timer s) found refl (has_client-clear_timeout j t m.idle_timer s)

  pub has_client-destroy_doc :
      (n j t : Text) (m : ManagedDoc D) (s : Manager D W)
      → has_client j t (destroy_doc n m s) ≡ (if text_eq n j then false else has_client j t s)
  unfolding destroy_doc has_client drop_doc clear_timeout
  has_client-destroy_doc n j t m s = ground (arith, get-remove n j s.docs)

  run_action-keeps_open :
      (action : TimerAction) (n : Text) (m : ManagedDoc D) (s : Manager D W)
      → Dict.get n s.docs ≡ some m
      → is_empty m.clients ≡ false
      → Dict.get n (run_action action s).docs ≡ some m
  unfolding run_action evict_doc destroy_doc drop_doc clear_timeout
  run_action-keeps_open (save k) n m s found used = found
  run_action-keeps_open (evict k) n m s found used =
      ground (arith, get-remove k n s.docs, text_eq_iff k n)

  -- A timer that fires, whichever it is, leaves a document that has clients in memory as it was.
  pub fire-keeps_open :
      (timer : Timer) (n : Text) (m : ManagedDoc D) (s : Manager D W)
      → Dict.get n s.docs ≡ some m
      → is_empty m.clients ≡ false
      → Dict.get n (fire timer s).docs ≡ some m
  unfolding fire
  fire-keeps_open timer n m s found used = run_action-keeps_open timer.action n m _ found used

module _ {D E W : Type 0} (env : Env D E W) where
  pub has_client-add_client :
      (n a j t : Text) (s : Manager D W)
      → has_client j t (add_client env n a s) ≡ true
      → (has_client j t s || (text_eq n j && text_eq a t)) ≡ true
  unfolding add_client has_client put_doc
  has_client-add_client n a j t s h = elim (Option-cases (Dict.get n s.docs)) [
    | inl absent ↦ ground arith
    | inr (m, found) ↦ ground (
      arith,
      text_eq_iff n j,
      has-add a t m.clients,
      get-insert n j
          (record m { clients = Items.add a m.clients; last_activity = env.date_now s.world })
          s.docs,
    )
  ]

  pub has_client-remove_client :
      (n a j t : Text) (s : Manager D W)
      → has_client j t (remove_client env n a s)
        ≡ (has_client j t s && not (text_eq n j && text_eq a t))
  unfolding remove_client leave_idle set_timeout has_client put_doc
  has_client-remove_client n a j t s = elim (Option-cases (Dict.get n s.docs)) [
    | inl absent ↦ ground (arith, text_eq_iff n j)
    | inr (m, found) ↦
        let left = record m { clients = Items.delete a m.clients } in
        ground (
          arith,
          text_eq_iff n j,
          has-delete a t m.clients,
          get-insert n j left s.docs,
          get-insert n j (record left { idle_timer = some s.next_timer }) s.docs,
        )
  ]

  pub has_client-schedule_save :
      (n j t : Text) (user : Option Text) (s : Manager D W)
      → has_client j t (schedule_save env n user s) ≡ has_client j t s
  unfolding schedule_save
  has_client-schedule_save n j t user s = elim (Option-cases (Dict.get n s.docs)) [
    | inl absent ↦ rw (absent, schedule_save)
    | inr (m, found) ↦
        rw (found, schedule_save)
          (has_client-same_clients n j t m _ s _ found refl (
            has_client-set_timeout j t _ _ (clear_timeout m.save_timer s)
            ∙ has_client-clear_timeout j t m.save_timer s))
  ]

  has_client-register_doc :
      (n j t ws : Text) (doc : D) (s : Manager D W)
      → Dict.get n s.docs ≡ none
      → has_client j t (register_doc env n ws doc s) ≡ has_client j t s
  unfolding register_doc Items.has
  has_client-register_doc n j t ws doc s absent =
      has_client-put_doc n j t _ s ∙ ground (arith, text_eq_iff n j, has_client-absent n t s absent)

  has_client-load_doc :
      (n j t ws : Text) (s : Manager D W)
      → Dict.get n s.docs ≡ none
      → has_client j t (load_doc env n ws s).1 ≡ has_client j t s
  unfolding load_doc
  has_client-load_doc n j t ws s absent = elim (Result-cases (find_state env n ws s.world).0) [
    | inr (fault, failed) ↦ rw (failed, load_doc) (has_client-world j t _ s)
    | inl ((state, owner), found) ↦ elim (Result-cases (build_doc env state)) [
      | inr (fault, failed) ↦ rw (found, load_doc, failed) (has_client-world j t _ s)
      | inl (doc, built) ↦
          rw (found, load_doc, built)
            (has_client-register_doc n j t owner doc _ absent ∙ has_client-world j t _ s)
    ]
  ]

  pub has_client-get_or_create_doc :
      (n j t ws : Text) (s : Manager D W)
      → has_client j t (get_or_create_doc env n ws s).1 ≡ has_client j t s
  unfolding get_or_create_doc
  has_client-get_or_create_doc n j t ws s = elim (Option-cases (Dict.get n s.docs)) [
    | inl absent ↦ rw (absent, get_or_create_doc) (has_client-load_doc n j t ws s absent)
    | inr (m, found) ↦ rw (found, get_or_create_doc) (has_client-wake n j t m s found)
  ]
