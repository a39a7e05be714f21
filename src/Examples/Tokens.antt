-- ===== src/Examples/Tokens.antt =====
-- A master token that is on record under its user.
use aideep_websocket.Common.{codes, ◌≡◌, refl, ◌↔◌, true, none, some, [], ◌∷◌, ok}
use aideep_websocket.Env.Database.{editor}
use aideep_websocket.RedisKeys.{master_token}
use aideep_websocket.Auth.{JwtPayload, TokenRequest, validate}
use aideep_websocket.Auth.Tokens.{IsAccepted, validate-IsAccepted}
use aideep_websocket.Examples.World.{World, env, user}
use aideep_websocket.Examples.Opened.{documents}

abbrev master : JwtPayload
master = record { user_name = user; email = user; user_id = user; is_master = true }

abbrev asked : TokenRequest
asked = record { bearer_token = some (codes "t"); query_token = none }

abbrev recorded : World
recorded = (master_token user, codes "t") ∷ []

passes : validate (env editor) asked master recorded ≡ (ok master, recorded)
unfolding documents
passes = refl

validate-IsAccepted_example :
    (validate (env editor) asked master recorded ≡ (ok master, recorded))
    ↔ IsAccepted (env editor) asked master recorded recorded
validate-IsAccepted_example = validate-IsAccepted (env editor) asked master recorded recorded
