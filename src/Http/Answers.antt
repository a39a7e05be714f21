-- ===== src/Http/Answers.antt =====
-- What a client, the log and the metrics are told of a request, in particular of one that fails.
use aideep_websocket.Common.{
  ℕ, Text, codes, Option, none, some, [], ◌++◌, ◌≡◌, refl, sym, ◌∙◌, arith, Fault, node_gone,
  not_loaded, not_initialized, invalid_url, bad_request, not_found, unprocessable, unauthorized,
  conflict, missing, version_conflict, external,
}
use aideep_websocket.Common.Strings.{text_eq}
use aideep_websocket.Js.{Value, Entries, undefined, object, property, truthy, string, Js}
use aideep_websocket.Js.Decimal.{decimal, decimal_injective}
use aideep_websocket.Http.Errors.{HttpException, http}
use aideep_websocket.Http.Errors.{fail_body}
use aideep_websocket.Http.Filter.{
  Target, answer_http, reason_of, reason_in, data_of, catch_exception,
}
use aideep_websocket.Http.Faults.{
  Nest, IsNest, ExceptionClass, conflict_exception, class_status, thrown_of,
}

-- The status that a fault of a service is answered with; none for what others reject with.
abbrev pub fault_status : Fault → Option ℕ
fault_status (bad_request _) = some 400
fault_status (unauthorized _) = some 401
fault_status (not_found _) = some 404
fault_status (missing _) = some 404
fault_status (conflict _) = some 409
fault_status (version_conflict _) = some 409
fault_status (unprocessable _) = some 422
fault_status (node_gone _) = some 500
fault_status (not_loaded _) = some 500
fault_status (invalid_url _) = some 500
fault_status not_initialized = some 500
fault_status (external _) = none

fail_body_injective :
    (c c' r r' : Text) (d d' : Value) → fail_body c r d ≡ fail_body c' r' d' → c ≡ c'
unfolding fail_body
fail_body_injective c c' r r' d d' h = ground arith

-- An exception that was made from an object with neither a message nor an error.
answer_http-body :
    (js : Js) (target : Target) (stack : Text) (e : HttpException) (o : Entries)
    → e.response ≡ object o
    → property (codes "message") o ≡ undefined
    → property (codes "error") o ≡ undefined
    → (answer_http js target stack e).body
      ≡ fail_body (codes "HTTP-" ++ decimal e.status) e.message (string [])
unfolding answer_http reason_of data_of reason_in truthy
answer_http-body js target stack e o r m n = rw (r, m, n) refl

module _ (js : Js) (nest : Nest) (laws : IsNest nest) (target : Target) (stack : Text) where
  exception-body :
      (c : ExceptionClass) (o : Entries)
      → property (codes "message") o ≡ undefined
      → property (codes "error") o ≡ undefined
      → (answer_http js target stack (nest.exception c (object o))).body
        ≡ fail_body (codes "HTTP-" ++ decimal (class_status c)) (laws.class_message c) (string [])
  exception-body c o m n =
      answer_http-body js target stack (nest.exception c (object o)) o (laws.response-exception c o)
        m n
      ∙ (λ i.
          fail_body (codes "HTTP-" ++ decimal (laws.status-exception c (object o) i))
            (laws.message-exception c o m i) (string []))

  answer-status :
      (c : ExceptionClass) (v : Value) {s : ℕ}
      → some (class_status c) ≡ some s
      → (catch_exception js target stack (http (nest.exception c v))).status ≡ s
  unfolding catch_exception
  answer-status c v h = ground (arith, laws.status-exception c v)

  -- x
  pub catch_exception-thrown_of :
      (fault : Fault) (status : ℕ)
      → fault_status fault ≡ some status
      → (catch_exception js target stack (thrown_of nest fault)).status ≡ status
  unfolding catch_exception thrown_of
  catch_exception-thrown_of (bad_request c) s h = answer-status _ _ h
  catch_exception-thrown_of (not_found c) s h = answer-status _ _ h
  catch_exception-thrown_of (unprocessable c) s h = answer-status _ _ h
  catch_exception-thrown_of (unauthorized c) s h = answer-status _ _ h
  catch_exception-thrown_of (conflict c) s h = answer-status _ _ h
  catch_exception-thrown_of (missing c) s h = answer-status _ _ h
  catch_exception-thrown_of (version_conflict v) s h = answer-status _ _ h
  catch_exception-thrown_of not_initialized s h = ground arith
  catch_exception-thrown_of (external n) s h = ground arith
  catch_exception-thrown_of (node_gone n) s h = ground arith
  catch_exception-thrown_of (not_loaded n) s h = ground arith
  catch_exception-thrown_of (invalid_url n) s h = ground arith

  -- Let the exceptions of NestJS have the status of their class, and the object that they are made
  -- from as their response. Then a version conflict, whichever the current version, and any other
  -- conflict of a content operation, whichever its code, are answered with the same status and the
  -- same body.
  pub catch_exception-conflict :
      (code : Text) (current : ℕ)
      → ((catch_exception js target stack (thrown_of nest (conflict code))).status
          ≡ (catch_exception js target stack (thrown_of nest (version_conflict current))).status)
        × ((catch_exception js target stack (thrown_of nest (conflict code))).body
            ≡ (catch_exception js target stack (thrown_of nest (version_conflict current))).body)
  unfolding catch_exception thrown_of property text_eq
  catch_exception-conflict code current = (
    laws.status-exception _ _ ∙ sym (laws.status-exception _ _),
    exception-body conflict_exception _ refl refl
        ∙ sym (exception-body conflict_exception _ refl refl),
  )

-- x
pub catch_exception_injective :
    (js : Js) (target : Target) (stack stack' : Text) (e f : HttpException)
    → (catch_exception js target stack (http e)).body
      ≡ (catch_exception js target stack' (http f)).body
    → e.status ≡ f.status
unfolding catch_exception answer_http
catch_exception_injective js target stack stack' e f h =
    decimal_injective (ground (arith, fail_body_injective _ _ _ _ _ _ h))
