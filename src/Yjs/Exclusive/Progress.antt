-- ===== src/Yjs/Exclusive/Progress.antt =====
-- src/global/yjs/yjs-doc-manager.ts: no call of `runExclusive` waits for ever behind calls that have
-- stopped moving.
use aideep_websocket.Common.{ℕ, zero, suc, ◌<◌, ◌≡◌, refl, ◌⊎◌, inl, inr, true, Option-cases, arith}
use aideep_websocket.Yjs.Exclusive.{waiting, running, settled, left, Calls, is_free, Reach}
use aideep_websocket.Yjs.Exclusive.Order.{Inv, Reach-Inv}

-- A call that runs its task, or whose task may start.
abbrev pub IsMoving : Calls → ℕ → Type 0
IsMoving s i =
    ((s.call i).phase ≡ running)
    ⊎ (((s.call i).phase ≡ waiting) × (is_free (s.call i).previous s ≡ true))

module _ (s : Calls) (v : Inv s) where
  Mover : ℕ → Type 0
  Mover j = (i : ℕ) × (i < s.next) × ((s.call i).node_id ≡ (s.call j).node_id) × IsMoving s i

  -- The calls before a waiting one are looked at from the latest to the first.
  find-Mover : (k j : ℕ) → j < k → j < s.next → (s.call j).phase ≡ waiting → Mover j
  unfolding is_free Mover
  find-Mover zero j low made waits = absurd (omega arith)
  find-Mover (suc k) j low made waits = elim (Option-cases (s.call j).previous) [
    | inl first ↦ (j, made, ground arith, inr (waits, ground arith))
    | inr (p, behind) ↦
        let (before, same) = v.linked j p made behind in
        let phase = (s.call p).phase in
        elim phase as (λ ph. (s.call p).phase ≡ ph → Mover j) [
          | waiting ↦ λ e.
              let (i, made', same', moving) = find-Mover k p (omega arith) (omega arith) e in
              (i, made', ground arith, moving)
          | running ↦ λ e. (p, omega arith, ground arith, inl e)
          | settled ↦ λ e. (j, made, ground arith, inr (waits, ground arith))
          | left ↦ λ e. (j, made, ground arith, inr (waits, ground arith))
        ]
          refl
  ]

-- In every state that calls of runExclusive can reach, where a call waits there is a call on the
-- same node that runs its task or whose task may start.
pub Reach-moves :
    {s : Calls}
    → Reach s
    → (j : ℕ) → j < s.next
    → (s.call j).phase ≡ waiting
    → (i : ℕ) × (i < s.next) × ((s.call i).node_id ≡ (s.call j).node_id) × IsMoving s i
unfolding Mover
Reach-moves {s} r j made waits = find-Mover s (Reach-Inv r) (suc j) j (omega arith) made waits
