-- ===== src/Common/Items.antt =====
-- A JavaScript `Set` of strings, in insertion order.
use Prim.Native.Nat.{ℕ, suc}
use mathlib.Core.Path.{◌≡◌, refl}
use mathlib.Core.Bool.{Bool, false, ◌||◌, ◌&&◌, not}
use mathlib.Core.List.{List, [], ◌∷◌}
use native.Mathlib.Omega.{arith}
use aideep_websocket.Common.Tests.{if◌then◌else◌}
use aideep_websocket.Common.Strings.{Text, text_eq, text_eq_iff}

-- set.has(a)
unfoldable pub has : Text → List Text → Bool
has a [] = false
has a (x ∷ xs) = text_eq x a || has a xs

-- set.add(a)
unfoldable pub add : Text → List Text → List Text
add a [] = a ∷ []
add a (x ∷ xs) = if text_eq x a then x ∷ xs else x ∷ add a xs

-- set.delete(a)
unfoldable pub delete : Text → List Text → List Text
delete a [] = []
delete a (x ∷ xs) = let rest = delete a xs in if text_eq x a then rest else x ∷ rest

-- set.size
abbrev pub size : List Text → ℕ
size [] = 0
size (x ∷ xs) = suc (size xs)

pub has-add : (a b : Text) (xs : List Text) → has b (add a xs) ≡ (text_eq a b || has b xs)
unfolding has add
has-add a b [] = refl
has-add a b (x ∷ xs) =
    ground (arith, has-add a b xs, text_eq_iff x a, text_eq_iff x b, text_eq_iff a b)

pub has-delete :
    (a b : Text) (xs : List Text) → has b (delete a xs) ≡ (not (text_eq a b) && has b xs)
unfolding has delete
has-delete a b [] = ground arith
has-delete a b (x ∷ xs) =
    ground (arith, has-delete a b xs, text_eq_iff x a, text_eq_iff x b, text_eq_iff a b)

pub ruleset item_laws = (has-add, has-delete)
