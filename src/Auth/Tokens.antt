-- ===== src/Auth/Tokens.antt =====
-- src/global/auth/strategy/jwt.strategy.ts: which tokens get through.
use aideep_websocket.Common.{
  Text, ◌≡◌, refl, ◌↔◌, true, false, Bool, Bool-cases, Option, none, some, Option-cases, inl, inr,
  ok, >>=-ok, arith, text_eq_iff, text_eq_refl,
}
use aideep_websocket.Env.{Env}
use aideep_websocket.RedisKeys.{blacklist, master_token}
use aideep_websocket.Yjs.Flush.{truthy}
use aideep_websocket.Auth.{
  JwtPayload, TokenRequest, token_of, is_revoked, check_stored, check_master, validate,
}

is_revoked-false :
    (stored token : Option Text)
    → is_revoked stored token ≡ false
    → (truthy token ≡ token) × (stored ≡ token) × ((t : Text) × (token ≡ some t))
unfolding is_revoked
is_revoked-false none token e = ground arith
is_revoked-false (some stored) none e = ground arith
is_revoked-false (some stored) (some token) e = (
  ground (arith, text_eq_iff stored token),
  ground (arith, text_eq_iff stored token),
  (token, refl),
)

is_revoked-same : (t : Text) → truthy (some t) ≡ some t → is_revoked (some t) (some t) ≡ false
unfolding is_revoked
is_revoked-same t full = ground (arith, text_eq_refl t)

module _ {D E W : Type 0} (env : Env D E W) (req : TokenRequest) (payload : JwtPayload) where
  -- The token of a master is on record under its user.
  abbrev pub IsOnRecord : Bool → W → W → Type 0
  IsOnRecord false w w' = w' ≡ w
  IsOnRecord true w w' =
      (t : Text) × (token_of req ≡ some t)
      × (truthy (some t) ≡ some t)
      × (env.redis.get (master_token payload.user_id) w ≡ (ok (some t), w'))

  abbrev pub IsAccepted : W → W → Type 0
  IsAccepted w w' =
      (found : Option Text) × (w₁ : W) × (env.redis.get (blacklist (token_of req)) w
        ≡ (ok found, w₁))
      × (truthy found ≡ none)
      × IsOnRecord payload.is_master w₁ w'

  check_stored-IsOnRecord :
      (w w' : W)
      → check_stored env (token_of req) payload w ≡ (ok payload, w')
      → IsOnRecord true w w'
  unfolding check_stored
  check_stored-IsOnRecord w w' e =
      let (stored, w₁, got, rest) = >>=-ok (env.redis.get (master_token payload.user_id)) _ w e in
      elim (Bool-cases (is_revoked stored (token_of req))) [
        | inl revoked ↦ ground arith
        | inr valid ↦
            let (full, same, (t, there)) = is_revoked-false stored (token_of req) valid in
            (t, there, ground arith, ground arith)
      ]

  check_master-IsOnRecord :
      (master : Bool) (w w' : W)
      → check_master env master (token_of req) payload w ≡ (ok payload, w')
      → IsOnRecord master w w'
  unfolding check_master
  check_master-IsOnRecord true w w' e = check_stored-IsOnRecord w w' e
  check_master-IsOnRecord false w w' e = ground arith

  IsOnRecord-check_master :
      (master : Bool) (w w' : W)
      → IsOnRecord master w w'
      → check_master env master (token_of req) payload w ≡ (ok payload, w')
  unfolding check_master check_stored
  IsOnRecord-check_master true w w' (t, there, full, stored) =
      ground (arith, is_revoked-same t full)
  IsOnRecord-check_master false w w' same = ground arith

  -- The check of a token after its signature lets it through exactly if Redis answers that the
  -- token is not on the black list and, where the payload is that of a master, then answers with a
  -- text that is not empty and is the token of the request under the key of the user.
  pub validate-IsAccepted :
      (w w' : W) → (validate env req payload w ≡ (ok payload, w')) ↔ IsAccepted w w'
  unfolding validate
  validate-IsAccepted w w' = (
    λ e.
        let (found, w₁, got, rest) = >>=-ok (env.redis.get (blacklist (token_of req))) _ w e in
        elim (Option-cases (truthy found)) [
          | inr (text, listed) ↦ ground arith
          | inl clean ↦ (
            found,
            w₁,
            got,
            clean,
            check_master-IsOnRecord payload.is_master w₁ w' (ground arith),
          )
        ],
    λ accepted.
        let (found, w₁, got, clean, recorded) = accepted in
        ground (arith, IsOnRecord-check_master payload.is_master w₁ w' recorded),
  )
