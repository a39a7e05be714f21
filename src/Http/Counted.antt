-- ===== src/Http/Counted.antt =====
-- The statuses that http_requests_total is counted under, against those that are sent.
use aideep_websocket.Common.{
  ℕ, Text, Bool, true, false, Option, List, [], ◌∷◌, ◌++◌, ◌≡◌, refl, ap, ◌∙◌, ◌<◌, arith,
  if◌then◌else◌, if-keeps,
}
use mathlib.Core.List.{append-nil}
use aideep_websocket.Js.{Js}
use aideep_websocket.Js.Decimal.{decimal}
use aideep_websocket.Http.Errors.{HttpException, http}
use aideep_websocket.Http.Filter.{catch_exception}
use aideep_websocket.Http.Exchange.{
  HttpRequest, Exchange, Handler, Outcome, returned, raised, Output, header, log_line, error_line,
  timed, counted, put,
}
use aideep_websocket.Http.Interceptors.{
  is_skipped, enter_context, begin_request, end_request, count_response, respond_metric,
  failure_label, wrap, request_id_of, response_interceptor, metrics_interceptor,
  logging_interceptor, intercepted, send, serve,
}

-- The status labels that http_requests_total has been counted under.
abbrev pub counted_labels : List Output → List Text
counted_labels [] = []
counted_labels (header name value ∷ outputs) = counted_labels outputs
counted_labels (log_line line ∷ outputs) = counted_labels outputs
counted_labels (error_line line stack ∷ outputs) = counted_labels outputs
counted_labels (timed method route label ∷ outputs) = counted_labels outputs
counted_labels (counted method route label ∷ outputs) = label ∷ counted_labels outputs

counted_labels-append :
    (xs ys : List Output) → counted_labels (xs ++ ys) ≡ counted_labels xs ++ counted_labels ys
counted_labels-append [] ys = refl
counted_labels-append (header name value ∷ xs) ys = counted_labels-append xs ys
counted_labels-append (log_line line ∷ xs) ys = counted_labels-append xs ys
counted_labels-append (error_line line stack ∷ xs) ys = counted_labels-append xs ys
counted_labels-append (timed method route label ∷ xs) ys = counted_labels-append xs ys
counted_labels-append (counted method route label ∷ xs) ys =
    ap (λ rest. label ∷ rest) (counted_labels-append xs ys)

module _ {W : Type 0} where
  abbrev pub labels : Exchange W → List Text
  labels x = counted_labels x.outputs

  -- The label of a request whose handler has come to this end.
  unfoldable pub label : Outcome → Exchange W → Text
  unfolding failure_label
  label (returned value) y = decimal y.status_code
  label (raised stack e) y = failure_label y.status_code

  labels-put_line : (line : Text) (x : Exchange W) → labels (put (log_line line) x) ≡ labels x
  labels-put_line line x = counted_labels-append x.outputs _ ∙ append-nil _

  labels-put_error :
      (line : Text) (stack : Option Text) (x : Exchange W)
      → labels (put (error_line line stack) x) ≡ labels x
  labels-put_error line stack x = counted_labels-append x.outputs _ ∙ append-nil _

  labels-respond_metric :
      (req : HttpRequest) (l : Text) (x : Exchange W)
      → labels (respond_metric req l x) ≡ labels x ++ l ∷ []
  unfolding respond_metric
  labels-respond_metric req l x =
      counted_labels-append (x.outputs ++ _) _
      ∙ ap (λ ls. ls ++ l ∷ []) (counted_labels-append x.outputs _ ∙ append-nil _)

  labels-count_response :
      (req : HttpRequest) (p : Outcome × Exchange W)
      → labels (count_response req p).1 ≡ labels p.1 ++ label p.0 p.1 ∷ []
  unfolding count_response label decimal
  labels-count_response req (returned value, y) = labels-respond_metric req _ y
  labels-count_response req (raised stack e, y) = labels-respond_metric req _ y

module _ {W : Type 0} (js : Js) (req : HttpRequest) where
  -- The status that a request is answered with whose handler has come to this end.
  unfoldable pub answered : Outcome → Exchange W → ℕ
  unfolding catch_exception
  answered (returned value) y = y.status_code
  answered (raised stack e) y =
      (catch_exception js (record { method = req.method; url = req.url }) stack e).status

  -- Two ends of a request that are counted and answered under the same statuses.
  record Agrees (p q : Outcome × Exchange W) : Type 0 where
    labels_agree : labels p.1 ≡ labels q.1
    label_agrees : label p.0 p.1 ≡ label q.0 q.1
    answered_agrees : answered p.0 p.1 ≡ answered q.0 q.1

  itself : (p : Outcome × Exchange W) → Agrees p p
  itself p = record { labels_agree = refl; label_agrees = refl; answered_agrees = refl }

  wrap-Agrees : (p : Outcome × Exchange W) → Agrees (wrap p) p
  unfolding wrap label answered
  wrap-Agrees (returned value, y) = record {
    labels_agree = refl;
    label_agrees = refl;
    answered_agrees = refl;
  }
  wrap-Agrees (raised stack e, y) = record {
    labels_agree = refl;
    label_agrees = refl;
    answered_agrees = refl;
  }

  response_interceptor-Agrees :
      (next : Handler W) (x : Exchange W) → Agrees (response_interceptor req next x) (next x)
  unfolding response_interceptor
  response_interceptor-Agrees next x =
      if-keeps (λ p. Agrees p (next x)) _ _ _ (itself (next x)) (wrap-Agrees (next x))

  -- The metrics count the request under its label, and leave the rest.
  count_response-answered :
      (p : Outcome × Exchange W)
      → let q = count_response req p in answered q.0 q.1 ≡ answered p.0 p.1
  unfolding count_response respond_metric answered
  count_response-answered (returned value, y) = refl
  count_response-answered (raised stack e, y) = refl

  module _ (production : Bool) (skips : List Text) where
    end_request-labels :
        (id : Text) (start : ℕ) (p : Outcome × Exchange W)
        → let q = end_request js production skips req id start p in
          (labels q.1 ≡ labels p.1) × (answered q.0 q.1 ≡ answered p.0 p.1)
    unfolding end_request answered
    end_request-labels id start (returned value, y) = (labels-put_line _ y, refl)
    end_request-labels id start (raised stack e, y) = (labels-put_error _ _ y, refl)

    send-labels :
        (p : Outcome × Exchange W)
        → let q = send js production skips req p in
          (labels q.1 ≡ labels p.1) × (q.0.status ≡ answered p.0 p.1)
    unfolding send answered
    send-labels (returned value, y) = (refl, refl)
    send-labels (raised stack e, y) = (labels-put_error _ _ y, refl)

    module _ (fresh : Text) (handler : Handler W) (x : Exchange W) where
      -- The exchange as the handler finds it.
      unfoldable pub at_handler : Exchange W
      unfolding enter_context begin_request is_skipped
      at_handler =
          let y = enter_context req fresh x in
          if is_skipped skips req then y else begin_request js production skips req y

      pub world_at_handler : at_handler.world ≡ x.world
      unfolding at_handler enter_context begin_request
      world_at_handler =
          if-keeps (λ (z : Exchange W). z.world ≡ x.world) (is_skipped skips req) _ _ refl refl

      -- What the two inner interceptors make of the handler's end.
      inner : Exchange W → Outcome × Exchange W
      unfolding metrics_interceptor response_interceptor
      inner = metrics_interceptor req (response_interceptor req handler)

      inner-labels :
          (z : Exchange W) (o : Outcome) (y : Exchange W)
          → handler z ≡ (o, y)
          → (labels (inner z).1 ≡ labels y ++ label o y ∷ [])
            × (answered (inner z).0 (inner z).1 ≡ answered o y)
      unfolding inner metrics_interceptor
      inner-labels z o y h =
          let a = response_interceptor-Agrees handler z in
          let p = response_interceptor req handler z in
          (
            labels-count_response req p
                ∙ (λ i. a.labels_agree i ++ a.label_agrees i ∷ [])
                ∙ (λ i. labels (h i).1 ++ label (h i).0 (h i).1 ∷ []),
            count_response-answered p ∙ a.answered_agrees ∙ (λ i. answered (h i).0 (h i).1),
          )

      -- The logging interceptor, for a request that is skipped or not.
      logged-labels :
          (skipped : Bool) (o : Outcome) (y z w : Exchange W) (id : Text) (start : ℕ)
          → handler (if skipped then z else w) ≡ (o, y)
          → let p =
              if skipped then inner z else end_request js production skips req id start (inner w) in
            (labels p.1 ≡ labels y ++ label o y ∷ []) × (answered p.0 p.1 ≡ answered o y)
      logged-labels true o y z w id start h = inner-labels z o y h
      logged-labels false o y z w id start h =
          let a = inner-labels w o y h in
          let b = end_request-labels id start (inner w) in (b.0 ∙ a.0, b.1 ∙ a.1)

      -- x
      pub serve-counted :
          (o : Outcome) (y : Exchange W)
          → handler at_handler ≡ (o, y)
          → let q = serve js production skips req fresh handler x in
            (labels q.1 ≡ labels y ++ label o y ∷ []) × (q.0.status ≡ answered o y)
      unfolding serve intercepted logging_interceptor at_handler inner
      serve-counted o y h =
          let z = enter_context req fresh x in
          let w = begin_request js production skips req z in
          let a =
            logged-labels (is_skipped skips req) o y z w (request_id_of z.context) z.clock h in
          let b = send-labels (intercepted js production skips req handler z) in
          (b.0 ∙ a.0, b.1 ∙ a.1)

      -- A request whose handler throws an HttpException while the status of the response is still
      -- below 400 is answered with the status of the exception, and http_requests_total counts it
      -- once more, under the status 500.
      pub serve-counted_as_500 :
          (stack : Text) (e : HttpException) (y : Exchange W)
          → handler at_handler ≡ (raised stack (http e), y)
          → y.status_code < 400
          → let q = serve js production skips req fresh handler x in
            (labels q.1 ≡ labels y ++ decimal 500 ∷ []) × (q.0.status ≡ e.status)
      unfolding label failure_label answered catch_exception
      serve-counted_as_500 stack e y h below =
          let a = serve-counted (raised stack (http e)) y h in
          (a.0 ∙ ap (λ l. labels y ++ l ∷ []) (ground arith), a.1)
