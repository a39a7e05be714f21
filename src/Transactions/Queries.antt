-- ===== src/Transactions/Queries.antt =====
-- PrismaService.logQuery: every query goes through it.
use aideep_websocket.Common.{
  ℕ, Text, codes, ◌≡◌, refl, Bool, Option, none, some, List, [], ◌∷◌, ◌++◌, ◌-◌, ltb, arith,
  if◌then◌else◌,
}
use aideep_websocket.Js.{Value, undefined, boolean, number, string, Js, string_of, string_or_null}
use aideep_websocket.Logs.Format.{Payload, query, slow, failed, format_prisma_log}
use aideep_websocket.Http.Errors.{Thrown, basic, http, prisma, error, thrown_value}
use aideep_websocket.Http.Exchange.{RequestContext, Outcome, returned, raised}

pub data Level : Type 0 where
  debug warning failure : Level

pub data LoggerName : Type 0 where
  winston_logger nest_logger : LoggerName

pub record Line : Type 0 where
  pub logger : LoggerName
  pub level : Level
  pub message : Text

-- The lines of the log, the last one first.
abbrev pub Lines : Type 0
Lines = List Line

-- PrismaService.log
unfoldable pub log : Bool → Level → Text → Lines → Lines
log production level message lines =
    record {
      logger = if production then winston_logger else nest_logger;
      level = level;
      message = message;
    }
    ∷ lines

-- The parameters that $allOperations hands over, less the query.
pub record QueryParams : Type 0 where
  pub operation : Text
  pub model : Option Text

unfoldable pub label_of : QueryParams → Text
label_of params =
    elim params.model [ none ↦ codes "?" | some model ↦ model ] ++ codes "." ++ params.operation

-- err.code of a Prisma error, err.name of another Error
unfoldable pub error_code : Thrown → Text
error_code (prisma e) = e.code
error_code (basic e) = e.name
error_code (http e) = e.name
error_code (error name message) = name
error_code (thrown_value v) = codes "unknown"

abbrev pub request_id_of : Option RequestContext → Value
request_id_of none = undefined
request_id_of (some context) = string context.request_id

abbrev pub user_id_of : Option RequestContext → Value
user_id_of none = undefined
user_id_of (some context) = string_or_null context.user_id

unfoldable pub base_payload : QueryParams → Option RequestContext → Bool → Payload
unfolding label_of
base_payload params context in_transaction =
    (codes "label", string (label_of params))
    ∷ (codes "requestId", request_id_of context)
    ∷ (codes "userId", user_id_of context)
    ∷ (codes "inTransaction", boolean in_transaction)
    ∷ []

module _ (js : Js) (production : Bool) (to_fixed : Value → Text) (slow_ms : ℕ) where
  -- err.message, or String(err)
  unfoldable pub error_message : Thrown → Text
  unfolding string_of
  error_message (prisma e) = e.message
  error_message (basic e) = e.message
  error_message (http e) = e.message
  error_message (error name message) = message
  error_message (thrown_value v) = string_of js v

  unfoldable pub log_success : Payload → ℕ → Lines → Lines
  unfolding format_prisma_log log
  log_success base ms lines =
      let fields = base ++ (codes "ms", number ms) ∷ [] in
      let logged =
        log production debug (format_prisma_log js production to_fixed query fields) lines in
      if ltb slow_ms ms
      then log production warning (format_prisma_log js production to_fixed slow fields) logged
      else logged

  unfoldable pub log_failure : Payload → ℕ → Thrown → Lines → Lines
  unfolding format_prisma_log error_code error_message log
  log_failure base ms e lines =
      log production failure
        (format_prisma_log js production to_fixed failed (
          base
          ++ (codes "ms", number ms)
            ∷ (codes "code", string (error_code e))
            ∷ (codes "message", string (error_message e))
            ∷ []))
        lines

  -- `run` is query(args), and `now` is performance.now() in whole milliseconds.
  module _ {W : Type 0} (now : W → ℕ) where
    unfoldable pub log_outcome : Payload → ℕ → Lines → Outcome × W → Outcome × (W × Lines)
    unfolding log_success log_failure
    log_outcome base start lines (returned value, w) =
        (returned value, (w, log_success base (now w - start) lines))
    log_outcome base start lines (raised stack e, w) =
        (raised stack e, (w, log_failure base (now w - start) e lines))

    unfoldable pub log_query :
        QueryParams
        → Option RequestContext
        → Bool
        → (W → Outcome × W)
        → W × Lines
        → Outcome × (W × Lines)
    unfolding log_outcome base_payload
    log_query params context in_transaction run (w, lines) =
        log_outcome (base_payload params context in_transaction) (now w) lines (run w)

    abbrev pub levels : Lines → List Level
    levels [] = []
    levels (line ∷ lines) = line.level ∷ levels lines

    -- The levels of the lines of a query that has come to this end after this time.
    abbrev pub query_levels : Outcome → ℕ → List Level
    query_levels (returned value) ms = if ltb slow_ms ms then warning ∷ debug ∷ [] else debug ∷ []
    query_levels (raised stack e) ms = failure ∷ []

    logged_levels :
        (base : Payload) (start : ℕ) (lines : Lines) (p : Outcome × W)
        → let q = log_outcome base start lines p in
          (q.0 ≡ p.0)
          × (q.1.0 ≡ p.1)
          × (levels q.1.1 ≡ query_levels p.0 (now p.1 - start) ++ levels lines)
    unfolding log_outcome log_success log_failure log
    logged_levels base start lines (returned value, w) = (refl, refl, ground arith)
    logged_levels base start lines (raised stack e, w) = (refl, refl, refl)

    -- The log of a query passes on the result or the error of the query and leaves the world that
    -- the query left; it adds one error line for a query that fails, and for one that succeeds one
    -- debug line and, exactly where it took longer than the threshold, a warning after it.
    pub log_query-run :
        (params : QueryParams) (context : Option RequestContext) (in_transaction : Bool)
        (run : W → Outcome × W) (w : W) (lines : Lines)
        → let p = log_query params context in_transaction run (w, lines) in
          (p.0 ≡ (run w).0)
          × (p.1.0 ≡ (run w).1)
          × (levels p.1.1 ≡ query_levels (run w).0 (now (run w).1 - now w) ++ levels lines)
    unfolding log_query
    log_query-run params context in_transaction run w lines =
        logged_levels (base_payload params context in_transaction) (now w) lines (run w)
