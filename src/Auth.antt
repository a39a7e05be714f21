-- ===== src/Auth.antt =====
-- src/global/auth/strategy/jwt.strategy.ts: `validate`, which runs after passport has verified the
-- signature of a token.
pub mod Tokens
use aideep_websocket.Common.{
  Text, codes, Bool, true, false, Option, none, some, Io, pure, throw, ◌>>=◌, unauthorized, text_eq,
  if◌then◌else◌,
}
use aideep_websocket.Env.{Env}
use aideep_websocket.RedisKeys
use aideep_websocket.Yjs.Flush.{truthy}

-- type JwtPayload
pub record JwtPayload : Type 0 where
  pub user_name : Text
  pub email : Text
  pub user_id : Text
  pub is_master : Bool

-- The request as the extractors of passport-jwt read it: the bearer token of the header, and
-- `req.query.token`.
pub record TokenRequest : Type 0 where
  pub bearer_token : Option Text
  pub query_token : Option Text

unfoldable pub token_of : TokenRequest → Option Text
token_of req = elim req.bearer_token [ some token ↦ some token | none ↦ req.query_token ]

-- !stored || stored !== token
unfoldable pub is_revoked : Option Text → Option Text → Bool
is_revoked none token = true
is_revoked (some stored) none = true
is_revoked (some stored) (some token) = elim (truthy (some stored)) [
  | none ↦ true
  | some _ ↦ if text_eq stored token then false else true
]

module _ {D E W : Type 0} (env : Env D E W) where
  unfoldable pub check_stored : Option Text → JwtPayload → Io W JwtPayload
  unfolding is_revoked
  check_stored token payload = do
    stored ← env.redis.get (RedisKeys.master_token payload.user_id)
    if is_revoked stored token
        then throw (unauthorized (codes "만료/폐기된 마스터 토큰입니다."))
        else pure payload

  -- if (payload.isMaster === true) { … }
  unfoldable pub check_master : Bool → Option Text → JwtPayload → Io W JwtPayload
  check_master true token payload = check_stored token payload
  check_master false token payload = pure payload

  unfoldable pub validate : TokenRequest → JwtPayload → Io W JwtPayload
  unfolding token_of
  validate req payload = do
    blacklisted ← env.redis.get (RedisKeys.blacklist (token_of req))
    elim (truthy blacklisted) [
      | some _ ↦ throw (unauthorized (codes "만료된 토큰입니다."))
      | none ↦ check_master payload.is_master (token_of req) payload
    ]
