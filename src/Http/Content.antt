-- ===== src/Http/Content.antt =====
-- src/domain/node-content/controller: the content operation as the handler of a request.
use aideep_websocket.Common.{ℕ, Text, Bool, some, List, ◌≡◌, ap, ◌∙◌, Result, ok, err, Fault}
use aideep_websocket.App.{App}
use aideep_websocket.Ws.State.{Gateway}
use aideep_websocket.NodeContent.Operation.{OperationBody, OperationResponse}
use aideep_websocket.NodeContent.Service.{Request, execute_content_operation}
use aideep_websocket.Js.{Value, Js}
use aideep_websocket.Http.Faults.{Nest, IsNest, thrown_of}
use aideep_websocket.Http.Exchange.{HttpRequest, Exchange, Handler, Outcome, returned, raised}
use aideep_websocket.Http.Interceptors.{serve}
use aideep_websocket.Http.Answers.{fault_status, catch_exception-thrown_of}
use aideep_websocket.Http.Counted.{answered, at_handler, world_at_handler, serve-counted}

-- The parameters of the route and the headers, with the user that the guard has put on the request.
abbrev pub content_request : Text → Text → Text → Text → OperationBody → Request
content_request user_id workspace_id node_id idempotency_key body = record {
  user_id = user_id;
  workspace_id = workspace_id;
  node_id = node_id;
  idempotency_key = idempotency_key;
  body = body;
}

module _ (nest : Nest) (show : OperationResponse → Value) (stack : Fault → Text) where
  unfoldable pub settle :
      {G : Type 0} → Exchange G → Result OperationResponse × G → Outcome × Exchange G
  unfolding thrown_of
  settle x (ok response, w) = (returned (show response), record x { world = w })
  settle x (err fault, w) = (raised (stack fault) (thrown_of nest fault), record x { world = w })

  module _ {D E W : Type 0} (app : App D E W) where
    -- executeContentOperation of the controller. `show` is the JSON of its response, and `stack` the
    -- stack of an error.
    unfoldable pub content_handler : Request → Handler (Gateway D W)
    unfolding settle execute_content_operation
    content_handler r x = settle x (execute_content_operation app r x.world)

    module _ (js : Js) (laws : IsNest nest) (production : Bool) (skips : List Text)
        (req : HttpRequest) (fresh : Text) (x : Exchange (Gateway D W)) (r : Request) where
      abbrev at : Exchange (Gateway D W)
      at = at_handler js req production skips fresh (content_handler r) x

      failed :
          (fault : Fault) (w : Gateway D W)
          → execute_content_operation app r x.world ≡ (err fault, w)
          → content_handler r at
            ≡ (raised (stack fault) (thrown_of nest fault), record at { world = w })
      unfolding content_handler settle
      failed fault w h =
          ap (λ world. settle at (execute_content_operation app r world))
            (world_at_handler js req production skips fresh (content_handler r) x)
          ∙ ap (settle at) h

      -- Let the exceptions of NestJS have the statuses of their classes. If a content operation
      -- fails with a fault of the server itself, its request is answered with 400, 401, 404, 409 or
      -- 422 for the exceptions that it throws, and with 500 for a node that is gone, a document
      -- that is not loaded, a URL that is not of the bucket and a transaction before the start,
      -- whether or not the request is logged.
      pub serve-content_handler :
          (fault : Fault) (w : Gateway D W) (status : ℕ)
          → execute_content_operation app r x.world ≡ (err fault, w)
          → fault_status fault ≡ some status
          → (serve js production skips req fresh (content_handler r) x).0.status ≡ status
      unfolding answered
      serve-content_handler fault w status h s =
          (serve-counted js req production skips fresh (content_handler r) x _ _
            (failed fault w h)).1
          ∙ catch_exception-thrown_of js nest laws _ (stack fault) fault status s
