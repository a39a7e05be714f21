-- ===== src/Yjs/Timers/Armed.antt =====
-- The moves of src/global/yjs/yjs-doc-manager.ts that set, clear and fire timers keep the save timers
-- in step with the documents.
use aideep_websocket.Common.{
  ℕ, ◌+◌, ◌≤◌, Text, ◌≡◌, ◌≢◌, refl, Bool-cases, true, false, Option, none, some, Option-cases, inl,
  inr, text_eq_iff, is_empty, arith,
}
use aideep_websocket.Common.Dict
use aideep_websocket.Common.Items
use aideep_websocket.Common.Dict.{get-insert, get-remove}
use aideep_websocket.Env.{Env}
use aideep_websocket.Yjs.Managed.{
  ManagedDoc, Manager, Timer, TimerAction, save, evict, clear_timeout, set_timeout, put_doc,
  drop_doc, debounce_save_ms, doc_idle_timeout_ms,
}
use aideep_websocket.Yjs.Lifecycle.{now_of, destroy_doc, evict_doc, run_action, fire}
use aideep_websocket.Yjs.DocManager.{add_client, leave_idle, remove_client, schedule_save}
use aideep_websocket.Yjs.Timers.{
  IsArmed, has_save, count_saves, timer_of, is_save, has_save-without_handle,
  count_saves-without_handle, count_saves-none, has_save-append, count_saves-append,
}

module _ {D W : Type 0} where
  -- Fewer timers, and the same handles on record.
  pub shrink-IsArmed :
      (s t : Manager D W)
      → ((n : Text) (h : ℕ) → has_save n h t.timers ≡ true → has_save n h s.timers ≡ true)
      → ((n : Text) → count_saves n t.timers ≤ count_saves n s.timers)
      → ((n : Text) → timer_of (Dict.get n t.docs) ≡ timer_of (Dict.get n s.docs))
      → IsArmed s
      → IsArmed t
  shrink-IsArmed s t fewer less same v = record {
    owned = λ n h there. ground (arith, v.owned n h, fewer n h there, same n);
    single = λ n. omega (arith, v.single n, less n);
  }

  pub has_save-clear_timeout :
      (n : Text) (h : ℕ) (handle : Option ℕ) (s : Manager D W)
      → has_save n h (clear_timeout handle s).timers ≡ true
      → (has_save n h s.timers ≡ true) × (handle ≢ some h)
  unfolding clear_timeout
  has_save-clear_timeout n h none s there = (there, λ e. cc)
  has_save-clear_timeout n h (some k) s there =
      let kept = has_save-without_handle n h k s.timers in (ground arith, λ e. ground arith)

  pub count_saves-clear_timeout :
      (n : Text) (handle : Option ℕ) (s : Manager D W)
      → count_saves n (clear_timeout handle s).timers ≤ count_saves n s.timers
  unfolding clear_timeout
  count_saves-clear_timeout n none s = omega arith
  count_saves-clear_timeout n (some k) s = count_saves-without_handle n k s.timers

  pub docs-clear_timeout :
      (handle : Option ℕ) (s : Manager D W) → (clear_timeout handle s).docs ≡ s.docs
  unfolding clear_timeout
  docs-clear_timeout none s = refl
  docs-clear_timeout (some k) s = refl

  -- Once the timer on record is cleared, the document needs none on record, or may be gone.
  pub clear-IsArmed :
      (n : Text) (m : ManagedDoc D) (s t : Manager D W)
      → Dict.get n s.docs ≡ some m
      → ((j : Text) (h : ℕ)
          → has_save j h t.timers ≡ true
          → has_save j h (clear_timeout m.save_timer s).timers ≡ true)
      → ((j : Text) → count_saves j t.timers ≤ count_saves j (clear_timeout m.save_timer s).timers)
      → ((j : Text) → j ≢ n → timer_of (Dict.get j t.docs) ≡ timer_of (Dict.get j s.docs))
      → IsArmed s
      → IsArmed t × ((h : ℕ) → has_save n h t.timers ≡ false)
  clear-IsArmed n m s t found fewer less same v = (
    record {
      owned = λ j h there.
          let (before, other) = has_save-clear_timeout j h m.save_timer s (fewer j h there) in
          ground (arith, v.owned j h before, same j);
      single = λ j. omega (arith, v.single j, less j, count_saves-clear_timeout j m.save_timer s);
    },
    λ h. elim (Bool-cases (has_save n h t.timers)) [
      | inr gone ↦ gone
      | inl there ↦
          let (before, other) = has_save-clear_timeout n h m.save_timer s (fewer n h there) in
          ground (arith, v.owned n h before)
    ],
  )

  -- A document that changes and keeps its save timer on record.
  pub timer_of-put_doc :
      (n j : Text) (m m' : ManagedDoc D) (s : Manager D W)
      → Dict.get n s.docs ≡ some m
      → m'.save_timer ≡ m.save_timer
      → timer_of (Dict.get j (put_doc n m' s).docs) ≡ timer_of (Dict.get j s.docs)
  unfolding put_doc
  timer_of-put_doc n j m m' s found same = ground (arith, get-insert n j m' s.docs, text_eq_iff n j)

  pub put_doc-IsArmed :
      (n : Text) (m m' : ManagedDoc D) (s : Manager D W)
      → Dict.get n s.docs ≡ some m
      → m'.save_timer ≡ m.save_timer
      → IsArmed s
      → IsArmed (put_doc n m' s)
  unfolding put_doc
  put_doc-IsArmed n m m' s found same v =
      shrink-IsArmed s (put_doc n m' s) (λ j h there. there) (λ j. omega arith)
        (λ j. timer_of-put_doc n j m m' s found same) v

  -- A document that comes into memory has no save timer.
  pub new-IsArmed :
      (n : Text) (m : ManagedDoc D) (s : Manager D W)
      → Dict.get n s.docs ≡ none
      → m.save_timer ≡ none
      → IsArmed s
      → IsArmed (put_doc n m s)
  unfolding put_doc
  new-IsArmed n m s absent idle v =
      shrink-IsArmed s (put_doc n m s) (λ j h there. there) (λ j. omega arith)
        (λ j. ground (arith, get-insert n j m s.docs, text_eq_iff n j)) v

  pub clear_timeout-IsArmed :
      (handle : Option ℕ) (s : Manager D W) → IsArmed s → IsArmed (clear_timeout handle s)
  clear_timeout-IsArmed handle s v =
      shrink-IsArmed s (clear_timeout handle s)
        (λ j h there. (has_save-clear_timeout j h handle s there).0)
        (λ j. count_saves-clear_timeout j handle s) (λ j. rw (docs-clear_timeout handle s)) v

  pub destroy_doc-IsArmed :
      (n : Text) (m : ManagedDoc D) (s : Manager D W)
      → Dict.get n s.docs ≡ some m
      → IsArmed s
      → IsArmed (destroy_doc n m s)
  unfolding destroy_doc drop_doc
  destroy_doc-IsArmed n m s found v =
      let u = clear_timeout m.save_timer s in
      (clear-IsArmed n m s (destroy_doc n m s) found
        (λ j h there. (has_save-clear_timeout j h m.idle_timer u there).0)
        (λ j. count_saves-clear_timeout j m.idle_timer u)
        (λ j other. ground (
          arith,
          get-remove n j (clear_timeout m.idle_timer u).docs,
          docs-clear_timeout m.idle_timer u,
          docs-clear_timeout m.save_timer s,
          text_eq_iff n j,
        ))
        v).0

  evict_doc-IsArmed : (n : Text) (s : Manager D W) → IsArmed s → IsArmed (evict_doc n s)
  unfolding evict_doc
  evict_doc-IsArmed n s v = elim (Option-cases (Dict.get n s.docs)) [
    | inl absent ↦ rw (absent, evict_doc) v
    | inr (m, found) ↦ elim (Bool-cases (is_empty m.clients)) [
      | inl idle ↦ rw (found, evict_doc, idle) (destroy_doc-IsArmed n m s found v)
      | inr busy ↦ rw (found, evict_doc, busy) v
    ]
  ]

  run_action-IsArmed :
      (action : TimerAction) (s : Manager D W) → IsArmed s → IsArmed (run_action action s)
  unfolding run_action
  run_action-IsArmed (save n) s v = record { owned = v.owned; single = v.single }
  run_action-IsArmed (evict n) s v = evict_doc-IsArmed n s v

  pub fire-IsArmed : (timer : Timer) (s : Manager D W) → IsArmed s → IsArmed (fire timer s)
  unfolding fire clear_timeout
  fire-IsArmed timer s v =
      run_action-IsArmed timer.action _ (clear_timeout-IsArmed (some timer.handle) s v)

  -- A save timer that is set and put on record where none runs.
  arm-IsArmed :
      (n : Text) (due : ℕ) (m : ManagedDoc D) (s : Manager D W)
      → m.save_timer ≡ some s.next_timer
      → ((h : ℕ) → has_save n h s.timers ≡ false)
      → IsArmed s
      → IsArmed (put_doc n m (set_timeout due (save n) s))
  unfolding set_timeout put_doc is_save
  arm-IsArmed n due m s recorded idle v =
      let timer : Timer = record { handle = s.next_timer; due = due; action = save n } in
      record {
        owned = λ j h there. ground (
          arith,
          v.owned j h,
          idle h,
          has_save-append j h s.timers timer,
          get-insert n j m s.docs,
          text_eq_iff n j,
        );
        single = λ j. ground (
          arith,
          v.single j,
          count_saves-none n s.timers idle,
          count_saves-append j s.timers timer,
          text_eq_iff n j,
        );
      }

module _ {D E W : Type 0} (env : Env D E W) where
  pub add_client-IsArmed :
      (n a : Text) (s : Manager D W) → IsArmed s → IsArmed (add_client env n a s)
  unfolding add_client
  add_client-IsArmed n a s v = elim (Option-cases (Dict.get n s.docs)) [
    | inl absent ↦ rw (absent, add_client) v
    | inr (m, found) ↦ rw (found, add_client) (put_doc-IsArmed n m _ s found refl v)
  ]

  abbrev evict_timer : Text → Manager D W → Timer
  evict_timer n s = record {
    handle = s.next_timer;
    due = now_of env s + doc_idle_timeout_ms;
    action = evict n;
  }

  -- A document that gets an idle timer: the new timer saves nothing.
  leave_idle-IsArmed :
      (n : Text) (m m' : ManagedDoc D) (s : Manager D W)
      → Dict.get n s.docs ≡ some m
      → m'.save_timer ≡ m.save_timer
      → IsArmed s
      → IsArmed (leave_idle env n m' s)
  unfolding leave_idle set_timeout put_doc is_save
  leave_idle-IsArmed n m m' s found same v =
      shrink-IsArmed s (leave_idle env n m' s)
        (λ j h there. ground (arith, has_save-append j h s.timers (evict_timer n s)))
        (λ j. ground (arith, count_saves-append j s.timers (evict_timer n s)))
        (λ j. timer_of-put_doc n j m (record m' { idle_timer = some s.next_timer }) s found same) v

  pub remove_client-IsArmed :
      (n a : Text) (s : Manager D W) → IsArmed s → IsArmed (remove_client env n a s)
  unfolding remove_client
  remove_client-IsArmed n a s v = elim (Option-cases (Dict.get n s.docs)) [
    | inl absent ↦ rw (absent, remove_client) v
    | inr (m, found) ↦
        let left = record m { clients = Items.delete a m.clients } in
        elim (Bool-cases (is_empty left.clients)) [
          | inl idle ↦ rw (found, remove_client, idle) (leave_idle-IsArmed n m left s found refl v)
          | inr busy ↦ rw (found, remove_client, busy) (put_doc-IsArmed n m left s found refl v)
        ]
  ]

  -- The old timer is cleared before the new one is set.
  pub schedule_save-IsArmed :
      (n : Text) (user : Option Text) (s : Manager D W)
      → IsArmed s
      → IsArmed (schedule_save env n user s)
  unfolding schedule_save
  schedule_save-IsArmed n user s v = elim (Option-cases (Dict.get n s.docs)) [
    | inl absent ↦ rw (absent, schedule_save) v
    | inr (m, found) ↦
        let u = clear_timeout m.save_timer s in
        let (kept, none_left) =
          clear-IsArmed n m s u found (λ j h there. there) (λ j. omega arith)
            (λ j other. rw (docs-clear_timeout m.save_timer s)) v in
        rw (found, schedule_save)
          (arm-IsArmed n (now_of env s + debounce_save_ms) _ u refl none_left kept)
  ]
