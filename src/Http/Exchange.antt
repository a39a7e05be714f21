-- ===== src/Http/Exchange.antt =====
-- What the HTTP layer keeps during one request, and what a handler makes of it.
use aideep_websocket.Common.{ℕ, Text, Bool, Option, List, [], ◌∷◌, ◌++◌}
use aideep_websocket.Js.{Value}
use aideep_websocket.Http.Errors.{Thrown}

-- The Express request, as the interceptors read it.
pub record HttpRequest : Type 0 where
  pub method : Text
  pub url : Text
  -- req.path and req.route?.path
  pub path : Text
  pub route : Option Text
  pub ip : Option Text
  -- the headers x-forwarded-for and x-request-id
  pub forwarded_for : Option Text
  pub request_id : Value
  -- req.user?.user_id
  pub user_id : Option Text
  -- the metadata of @SkipTransform on the method
  pub skip_transform : Bool

-- request.context.ts
pub record RequestContext : Type 0 where
  pub request_id : Text
  pub user_id : Option Text

-- What is written to the response's headers, to the logger and to the metrics.
pub data Output : Type 0 where
  -- res.setHeader(name, value)
  header : Text → Text → Output
  -- logger.log(line, 'HTTP') and logger.error(line, stack, 'HTTP')
  log_line : Text → Output
  error_line : Text → Option Text → Output
  -- a sample of http_request_duration_seconds and one of http_requests_total: method, route, status
  timed : Text → Text → Text → Output
  counted : Text → Text → Text → Output

-- `W` is the state that the handler works on.
pub record Exchange (W : Type 0) : Type 0 where
  pub context : Option RequestContext
  -- Date.now()
  pub clock : ℕ
  -- res.statusCode
  pub status_code : ℕ
  pub outputs : List Output
  pub world : W

pub data Outcome : Type 0 where
  returned : Value → Outcome
  -- the stack of the error, and the error
  raised : Text → Thrown → Outcome

-- What `next.handle()` runs.
abbrev pub Handler : Type 0 → Type 0
Handler W = Exchange W → Outcome × Exchange W

abbrev pub put : {W : Type 0} → Output → Exchange W → Exchange W
put output x = record x { outputs = x.outputs ++ output ∷ [] }
