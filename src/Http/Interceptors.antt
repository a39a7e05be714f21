-- ===== src/Http/Interceptors.antt =====
-- src/global/common: request-context.middleware.ts, logging.interceptor.ts,
-- http-metrics.interceptor.ts, response.interceptor.ts, and their order in src/main.ts.
use aideep_websocket.Common.{
  ℕ, Text, codes, Bool, false, Option, none, some, List, [], ◌∷◌, ◌++◌, ◌-◌, ◌||◌, is_empty, leb,
  ◌==◌, if◌then◌else◌,
}
use aideep_websocket.Yjs.Markdown.{trim}
use aideep_websocket.Js.{
  Value, Values, undefined, null, string, number, array, nil, cons, object_of, Js, maybe_string,
  string_or_null,
}
use aideep_websocket.Js.Decimal.{decimal}
use aideep_websocket.Logs.Config.{starts_with}
use aideep_websocket.Logs.Format.{request, response, Payload, format_http_log}
use aideep_websocket.Http.Errors.{Thrown, http, thrown_value}
use aideep_websocket.Http.Filter.{catch_exception}
use aideep_websocket.Http.Exchange.{
  HttpRequest, RequestContext, Exchange, Handler, Outcome, returned, raised, header, log_line,
  error_line, timed, counted, put,
}

-- What the logging interceptor has read before it calls the handler.
pub record Started : Type 0 where
  pub request_id : Text
  pub start : ℕ

-- The part of a header before its first comma.
abbrev before_comma : Text → Text
before_comma [] = []
before_comma (c ∷ t) = let rest = before_comma t in if c == 44 then [] else c ∷ rest

abbrev some_prefix : Text → List Text → Bool
some_prefix url [] = false
some_prefix url (skip ∷ skips) = starts_with url skip || some_prefix url skips

-- LOG_SKIP_URLS.some((skip) => url.startsWith(skip))
unfoldable pub is_skipped : List Text → HttpRequest → Bool
unfolding starts_with
is_skipped skips req = some_prefix req.url skips

unfoldable pub ip_of : HttpRequest → Option Text
unfolding trim
ip_of req = elim req.forwarded_for [ some text ↦ some (trim (before_comma text)) | none ↦ req.ip ]

abbrev pub request_id_of : Option RequestContext → Text
request_id_of none = codes "no-context"
request_id_of (some context) = context.request_id

abbrev with_user : Option Text → Option RequestContext → Option RequestContext
with_user user none = none
with_user user (some context) = some (record context { user_id = user })

-- err instanceof HttpException ? err.getStatus() : 500
unfoldable pub logged_status : Thrown → ℕ
logged_status (http e) = e.status
logged_status _ = 500

-- err instanceof Error ? err.stack : undefined
unfoldable pub stack_of : Text → Thrown → Option Text
stack_of stack (thrown_value v) = none
stack_of stack _ = some stack

unfoldable pub request_payload : HttpRequest → Text → Payload
unfolding ip_of
request_payload req request_id =
    (codes "requestId", string request_id)
    ∷ (codes "userId", string_or_null req.user_id)
    ∷ (codes "ip", maybe_string (ip_of req))
    ∷ (codes "method", string req.method)
    ∷ (codes "url", string req.url)
    ∷ []

unfoldable pub response_payload : HttpRequest → Text → ℕ → ℕ → Payload
unfolding request_payload
response_payload req request_id status ms =
    request_payload req request_id
    ++ (codes "statusCode", number status) ∷ (codes "ms", number ms) ∷ []

-- The `route` label of the metrics.
unfoldable pub route_of : HttpRequest → Text
route_of req = elim req.route [ none ↦ req.path | some route ↦ route ]

-- String(res.statusCode >= 400 ? res.statusCode : 500)
unfoldable pub failure_label : ℕ → Text
failure_label status = if leb 400 status then decimal status else decimal 500

unfoldable pub success_body : Value → Value
success_body value = object_of (
    (codes "resultType", string (codes "SUCCESS"))
    ∷ (codes "error", null)
    ∷ (codes "success", value)
    ∷ [])

module _ {W : Type 0} where
  unfoldable pub respond_metric : HttpRequest → Text → Exchange W → Exchange W
  unfolding route_of
  respond_metric req label x =
      put (counted req.method (route_of req) label) (put (timed req.method (route_of req) label) x)

  unfoldable pub count_response : HttpRequest → Outcome × Exchange W → Outcome × Exchange W
  unfolding respond_metric failure_label
  count_response req (returned value, y) =
      (returned value, respond_metric req (decimal y.status_code) y)
  count_response req (raised stack e, y) =
      (raised stack e, respond_metric req (failure_label y.status_code) y)

  -- HttpMetricsInterceptor.intercept
  unfoldable pub metrics_interceptor : HttpRequest → Handler W → Handler W
  unfolding count_response
  metrics_interceptor req next x = count_response req (next x)

  unfoldable pub wrap : Outcome × Exchange W → Outcome × Exchange W
  unfolding success_body
  wrap (returned value, y) = (returned (success_body value), y)
  wrap (raised stack e, y) = (raised stack e, y)

  -- ResponseInterceptor.intercept
  unfoldable pub response_interceptor : HttpRequest → Handler W → Handler W
  unfolding wrap starts_with
  response_interceptor req next x =
      if starts_with req.url (codes "/metrics") || req.skip_transform then next x else wrap (next x)

  module _ (js : Js) (production : Bool) (skips : List Text) where
    -- ctx.userId = userId, and the line of the request
    unfoldable pub begin_request : HttpRequest → Exchange W → Exchange W
    unfolding format_http_log request_payload
    begin_request req x =
        put
          (log_line
            (format_http_log js production request (request_payload req (request_id_of x.context))))
          (record x { context = with_user req.user_id x.context })

    unfoldable pub response_line : HttpRequest → Text → ℕ → ℕ → Exchange W → Text
    unfolding format_http_log response_payload
    response_line req request_id start status y =
        format_http_log js production response
          (response_payload req request_id status (y.clock - start))

    -- The line of the response, for a request that was logged under this identifier at this time.
    unfoldable pub end_request :
        HttpRequest → Text → ℕ → Outcome × Exchange W → Outcome × Exchange W
    unfolding response_line logged_status stack_of
    end_request req request_id start (returned value, y) =
        (returned value, put (log_line (response_line req request_id start y.status_code y)) y)
    end_request req request_id start (raised stack e, y) = (
      raised stack e,
      put (error_line (response_line req request_id start (logged_status e) y) (stack_of stack e))
          y,
    )

    -- LoggingInterceptor.intercept
    unfoldable pub logging_interceptor : HttpRequest → Handler W → Handler W
    unfolding is_skipped begin_request end_request
    logging_interceptor req next x =
        if is_skipped skips req
        then next x
        else end_request req (request_id_of x.context) x.clock (next (begin_request req x))

    -- app.useGlobalInterceptors(...)
    unfoldable pub intercepted : HttpRequest → Handler W → Handler W
    unfolding logging_interceptor metrics_interceptor response_interceptor
    intercepted req handler =
        logging_interceptor req (metrics_interceptor req (response_interceptor req handler))

-- What goes back to the client.
pub record Sent : Type 0 where
  pub status : ℕ
  pub body : Value

abbrev first : Values → Value
first nil = undefined
first (cons value rest) = value

-- The identifier of a request: the header, its first value, or a new one.
unfoldable pub request_id_from : Value → Text → Text
request_id_from (string text) fresh = if is_empty text then fresh else text
request_id_from (array values) fresh = elim (first values) [ string text ↦ text | _ ↦ fresh ]
request_id_from _ fresh = fresh

module _ {W : Type 0} where
  -- RequestContextMiddleware.use, with the identifier that uuidv4 would give
  unfoldable pub enter_context : HttpRequest → Text → Exchange W → Exchange W
  unfolding request_id_from
  enter_context req fresh x =
      let id = request_id_from req.request_id fresh in
      record (put (header (codes "X-Request-Id") id) x) {
        context = some (record { request_id = id; user_id = none });
      }

  module _ (js : Js) (production : Bool) (skips : List Text) where
    unfoldable pub send : HttpRequest → Outcome × Exchange W → Sent × Exchange W
    unfolding catch_exception
    send req (returned value, y) = (record { status = y.status_code; body = value }, y)
    send req (raised stack e, y) =
        let reply = catch_exception js (record { method = req.method; url = req.url }) stack e in
        (
          record { status = reply.status; body = reply.body },
          put (error_line reply.logged.message reply.logged.stack) y,
        )

    -- A request that the guards have let through.
    unfoldable pub serve : HttpRequest → Text → Handler W → Exchange W → Sent × Exchange W
    unfolding enter_context intercepted send
    serve req fresh handler x =
        send req (intercepted js production skips req handler (enter_context req fresh x))
