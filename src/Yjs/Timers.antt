-- ===== src/Yjs/Timers.antt =====
-- The save timers of src/global/yjs/yjs-doc-manager.ts against the documents in memory.
pub mod Armed
pub mod Flushes
use aideep_websocket.Common.{
  ℕ, suc, ◌+◌, ◌≤◌, Text, ◌≡◌, ◌≢◌, refl, Bool, true, false, not, ◌&&◌, ◌||◌, Option, none, some,
  List, [], ◌∷◌, ◌++◌, Option-cases, inl, inr, ◌==◌, text_eq, text_eq_iff, if◌then◌else◌, arith,
}
use aideep_websocket.Common.Dict
use aideep_websocket.Yjs.Managed.{
  ManagedDoc, Manager, Timer, TimerAction, save, evict, clear_timeout, without_handle,
}

unfoldable pub is_save : Text → TimerAction → Bool
is_save n (save m) = text_eq m n
is_save n (evict m) = false

-- Whether a save timer of a node runs under a handle, and how many run.
unfoldable pub has_save : Text → ℕ → List Timer → Bool
unfolding is_save
has_save n h [] = false
has_save n h (t ∷ ts) = (is_save n t.action && t.handle == h) || has_save n h ts

unfoldable pub count_saves : Text → List Timer → ℕ
unfolding is_save
count_saves n [] = 0
count_saves n (t ∷ ts) =
    let rest = count_saves n ts in if is_save n t.action then suc rest else rest

-- The handle that a node has on record.
abbrev pub timer_of : {D : Type 0} → Option (ManagedDoc D) → Option ℕ
timer_of none = none
timer_of (some m) = m.save_timer

pub record IsArmed {D W : Type 0} (s : Manager D W) : Type 0 where
  pub owned :
      (n : Text) (h : ℕ) → has_save n h s.timers ≡ true → timer_of (Dict.get n s.docs) ≡ some h
  pub single : (n : Text) → count_saves n s.timers ≤ 1

pub has_save-without_handle :
    (n : Text) (h k : ℕ) (ts : List Timer)
    → has_save n h (without_handle k ts) ≡ (has_save n h ts && not (h == k))
unfolding has_save without_handle
has_save-without_handle n h k [] = refl
has_save-without_handle n h k (t ∷ ts) = ground (arith, has_save-without_handle n h k ts)

pub count_saves-without_handle :
    (n : Text) (k : ℕ) (ts : List Timer) → count_saves n (without_handle k ts) ≤ count_saves n ts
unfolding count_saves without_handle
count_saves-without_handle n k [] = omega arith
count_saves-without_handle n k (t ∷ ts) = ground (arith, count_saves-without_handle n k ts)

pub count_saves-none :
    (n : Text) (ts : List Timer) → ((h : ℕ) → has_save n h ts ≡ false) → count_saves n ts ≡ 0
unfolding count_saves has_save
count_saves-none n [] e = refl
count_saves-none n (t ∷ ts) e =
    ground (arith, e t.handle, count_saves-none n ts (λ h. ground (arith, e h)))

pub has_save-append :
    (n : Text) (h : ℕ) (ts : List Timer) (t : Timer)
    → has_save n h (ts ++ t ∷ []) ≡ (has_save n h ts || (is_save n t.action && t.handle == h))
unfolding has_save
has_save-append n h [] t = ground arith
has_save-append n h (u ∷ ts) t = ground (arith, has_save-append n h ts t)

pub count_saves-append :
    (n : Text) (ts : List Timer) (t : Timer)
    → count_saves n (ts ++ t ∷ []) ≡ count_saves n ts + (if is_save n t.action then 1 else 0)
unfolding count_saves
count_saves-append n [] t = ground arith
count_saves-append n (u ∷ ts) t = ground (arith, count_saves-append n ts t)
