-- ===== src/Common/Effects.antt =====
-- Methods that change a state and may throw: what was written before a throw stays written.
use mathlib.Core.Path.{◌≡◌, refl}
use mathlib.Core.Logic.{◌⊎◌, inl, inr}
use native.Mathlib.Omega.{arith}
use Prim.Native.Nat.{ℕ}
use aideep_websocket.Common.Strings.{Text}

-- What the code throws or lets through. `external` is a rejection by a service or a library.
pub data Fault : Type 0 where
  -- `NodeGoneError` of yjs-crdt.service.ts
  node_gone : Text → Fault
  -- `Yjs doc is not loaded`
  not_loaded : Text → Fault
  -- an S3 URL that does not begin with the bucket's prefix
  invalid_url : Text → Fault
  -- a transaction before `onModuleInit`
  not_initialized : Fault
  -- exceptions of NestJS that are made from an object with this `code`
  bad_request : Text → Fault
  not_found : Text → Fault
  unprocessable : Text → Fault
  conflict : Text → Fault
  -- those that are made from a message
  missing : Text → Fault
  unauthorized : Text → Fault
  -- the conflict with the `currentVersion` in its object
  version_conflict : ℕ → Fault
  external : ℕ → Fault

pub data Result {ℓ} (A : Type ℓ) : Type ℓ where
  ok : A → Result A
  err : Fault → Result A

abbrev pub Io {ℓ} : Type ℓ → Type ℓ → Type ℓ
Io S A = S → Result A × S

module _ {ℓ} {S A : Type ℓ} where
  abbrev pub pure : A → Io S A
  pure a s = (ok a, s)

  abbrev pub throw : Fault → Io S A
  throw e s = (err e, s)

  abbrev pub lift : Result A → Io S A
  lift r s = (r, s)

module _ {ℓ} {S A B : Type ℓ} where
  abbrev pub continue : Result A → (A → Io S B) → Io S B
  continue (ok a) f s = f a s
  continue (err e) f s = (err e, s)

  infixl 10 ◌>>=◌ ◌>>◌
  abbrev pub ◌>>=◌ : Io S A → (A → Io S B) → Io S B
  ◌>>=◌ m f s = let (r, s') = m s in continue r f s'

  abbrev pub ◌>>◌ : Io S A → Io S B → Io S B
  m >> n = m >>= λ _. n

module _ {ℓ} {S A : Type ℓ} where
  abbrev pub handle : Result A → (Fault → Io S A) → Io S A
  handle (ok a) f s = (ok a, s)
  handle (err e) f s = f e s

  -- try { m } catch (e) { f(e) }, and m.catch(f)
  abbrev pub catch : Io S A → (Fault → Io S A) → Io S A
  catch m f s = let (r, s') = m s in handle r f s'

pub Result-cases {ℓ} :
    {A : Type ℓ} (r : Result A) → ((a : A) × (r ≡ ok a)) ⊎ ((e : Fault) × (r ≡ err e))
Result-cases (ok a) = inl (a, refl)
Result-cases (err e) = inr (e, refl)

-- What every part of a method keeps, the method keeps, also where it throws.
module _ {ℓ κ} {S A B : Type ℓ} (P : S → Type κ) where
  continue-keeps :
      (r : Result A) (f : A → Io S B) (s : S)
      → P s
      → ((a : A) → P s → P (f a s).1)
      → P (continue r f s).1
  continue-keeps (ok a) f s h k = k a h
  continue-keeps (err e) f s h k = h

  pub >>=-keeps :
      (m : Io S A) (f : A → Io S B) (s : S)
      → P (m s).1
      → ((a : A) (t : S) → P t → P (f a t).1)
      → P ((m >>= f) s).1
  >>=-keeps m f s h k = continue-keeps (m s).0 f (m s).1 h (λ a. k a (m s).1)

module _ {ℓ κ} {S A : Type ℓ} (P : S → Type κ) where
  handle-keeps :
      (r : Result A) (f : Fault → Io S A) (s : S)
      → P s
      → ((e : Fault) → P s → P (f e s).1)
      → P (handle r f s).1
  handle-keeps (ok a) f s h k = h
  handle-keeps (err e) f s h k = k e h

  pub catch-keeps :
      (m : Io S A) (f : Fault → Io S A) (s : S)
      → P (m s).1
      → ((e : Fault) (t : S) → P t → P (f e t).1)
      → P (catch m f s).1
  catch-keeps m f s h k = handle-keeps (m s).0 f (m s).1 h (λ e. k e (m s).1)

-- A method that returns got through each of its steps.
module _ {ℓ} {S A B : Type ℓ} where
  continue_ok :
      (r : Result A) (f : A → Io S B) (t : S) {b : B} {u : S}
      → continue r f t ≡ (ok b, u)
      → (a : A) × (r ≡ ok a) × (f a t ≡ (ok b, u))
  continue_ok (ok a) f t e = (a, refl, e)
  continue_ok (err x) f t e = cc

  pub >>=-ok :
      (m : Io S A) (f : A → Io S B) (s : S) {b : B} {u : S}
      → (m >>= f) s ≡ (ok b, u)
      → (a : A) × (t : S) × (m s ≡ (ok a, t)) × (f a t ≡ (ok b, u))
  >>=-ok m f s e =
      let (a, returned, rest) = continue_ok (m s).0 f (m s).1 e in
      (a, (m s).1, λ i. (returned i, (m s).1), rest)

module _ {ℓ} {S A : Type ℓ} where
  handle_ok :
      (r : Result A) (f : Fault → Io S A) (t : S) {a : A} {u : S}
      → handle r f t ≡ (ok a, u)
      → ((r ≡ ok a) × (t ≡ u)) ⊎ ((e : Fault) × (r ≡ err e) × (f e t ≡ (ok a, u)))
  handle_ok (ok x) f t h = inl (ground arith, ground arith)
  handle_ok (err e) f t h = inr (e, refl, h)

  pub catch_ok :
      (m : Io S A) (f : Fault → Io S A) (s : S) {a : A} {u : S}
      → catch m f s ≡ (ok a, u)
      → (m s ≡ (ok a, u)) ⊎ ((e : Fault) × (t : S) × (m s ≡ (err e, t)) × (f e t ≡ (ok a, u)))
  catch_ok m f s h = elim (handle_ok (m s).0 f (m s).1 h) [
    | inl (r, t) ↦ inl (λ i. (r i, t i))
    | inr (e, r, k) ↦ inr (e, (m s).1, λ i. (r i, (m s).1), k)
  ]
