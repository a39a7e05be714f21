-- ===== src/Yjs/DocManager/Idle.antt =====
-- The idle timers of src/global/yjs/yjs-doc-manager.ts: what `removeClient` does to a document that
-- nobody has open.
use aideep_websocket.Common.{
  ℕ, suc, ◌+◌, Text, ◌≡◌, refl, Option, none, some, List, [], ◌∷◌, ◌++◌, arith,
}
use aideep_websocket.Common.Dict
use aideep_websocket.Common.Dict.{get-insert_self}
use aideep_websocket.Common.Items
use aideep_websocket.Env.{Env}
use aideep_websocket.Yjs.Managed.{
  ManagedDoc, Manager, Timer, evict, put_doc, set_timeout, doc_idle_timeout_ms,
}
use aideep_websocket.Yjs.Lifecycle.{now_of}
use aideep_websocket.Yjs.DocManager.{remove_client, leave_idle}

-- The idle timer that a document has on record.
abbrev pub idle_of : {D : Type 0} → Option (ManagedDoc D) → Option ℕ
idle_of none = none
idle_of (some m) = m.idle_timer

append-append : (ts : List Timer) (t u : Timer) → (ts ++ t ∷ []) ++ u ∷ [] ≡ ts ++ t ∷ u ∷ []
append-append [] t u = refl
append-append (x ∷ ts) t u = ground (arith, append-append ts t u)

module _ {D E W : Type 0} (env : Env D E W) (n : Text) where
  abbrev pub idle_timer_at : ℕ → Manager D W → Timer
  idle_timer_at handle s = record {
    handle = handle;
    due = now_of env s + doc_idle_timeout_ms;
    action = evict n;
  }

  remove_client-idle :
      (a : Text) (s : Manager D W) (m : ManagedDoc D)
      → Dict.get n s.docs ≡ some m
      → Items.delete a m.clients ≡ []
      → remove_client env n a s ≡ leave_idle env n (record m { clients = [] }) s
  unfolding remove_client
  remove_client-idle a s m found alone = ground arith

  -- Where the removal of a client leaves a document without clients, the removal of any client
  -- after it sets a second idle timer and leaves the first running; the document has only the
  -- second on record.
  pub remove_client-remove_client :
      (a b : Text) (s : Manager D W) (m : ManagedDoc D)
      → Dict.get n s.docs ≡ some m
      → Items.delete a m.clients ≡ []
      → let s₂ = remove_client env n b (remove_client env n a s) in
        (s₂.timers
          ≡ s.timers ++ idle_timer_at s.next_timer s ∷ idle_timer_at (suc s.next_timer) s ∷ [])
        × (idle_of (Dict.get n s₂.docs) ≡ some (suc s.next_timer))
  unfolding leave_idle put_doc set_timeout Items.delete
  remove_client-remove_client a b s m found alone =
      let m₁ = record m { clients = []; idle_timer = some s.next_timer } in
      let s₁ = leave_idle env n (record m { clients = [] }) s in
      let again = remove_client-idle b s₁ m₁ (get-insert_self n m₁ s.docs) refl in
      rw (remove_client-idle a s m found alone, again)
        (
          append-append s.timers (idle_timer_at s.next_timer s)
              (idle_timer_at (suc s.next_timer) s),
          ground (
            arith,
            get-insert_self n (record m₁ { idle_timer = some (suc s.next_timer) }) s₁.docs,
          ),
        )
