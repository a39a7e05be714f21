-- ===== src/Examples/Http.antt =====
-- Requests that fail, and what is answered, logged and counted.
use aideep_websocket.Common.{
  Text, codes, ◌≡◌, refl, true, false, none, some, [], ◌∷◌, ◌++◌, err, conflict, version_conflict,
  unauthorized, arith,
}
use aideep_websocket.Env.Database.{viewer}
use aideep_websocket.NodeContent.Service.{execute_content_operation}
use aideep_websocket.Server.{start}
use aideep_websocket.Js.{Value, undefined, string, object_of, Js}
use aideep_websocket.Js.Decimal.{decimal}
use aideep_websocket.Http.Errors.{HttpException, http, error}
use aideep_websocket.Http.Filter.{Target, catch_exception}
use aideep_websocket.Http.Faults.{Nest, IsNest, ExceptionClass, class_status, thrown_of}
use aideep_websocket.Http.Exchange.{HttpRequest, Exchange, Handler, raised}
use aideep_websocket.Http.Interceptors.{serve}
use aideep_websocket.Http.Answers.{catch_exception-conflict}
use aideep_websocket.Http.Counted.{labels, serve-counted_as_500, at_handler}
use aideep_websocket.Http.Content.{content_handler, serve-content_handler}
use aideep_websocket.Examples.World.{app, request}
use aideep_websocket.Examples.Opened.{server}

abbrev pub js : Js
js = record { stringify = λ v. some (codes "json"); byte_length = λ t. 0; decode = λ b. b }

abbrev message_of : Value → Text
message_of (string text) = text
message_of _ = codes "Exception"

abbrev response_of : ExceptionClass → Value → Value
response_of c (string text) =
    object_of ((codes "message", string text) ∷ (codes "error", string (codes "Exception")) ∷ [])
response_of c v = v

abbrev nest : Nest
nest = record {
  exception = λ c v. record {
    name = codes "Exception";
    status = class_status c;
    message = message_of v;
    response = response_of c v;
  };
  rejection = λ n. error (codes "Error") [];
}

nest-IsNest : IsNest nest
nest-IsNest = record {
  class_message = λ c. codes "Exception";
  status-exception = λ c v. refl;
  response-exception = λ c o. refl;
  message-exception = λ c o h. refl;
}

abbrev target : Target
target = record { method = codes "POST"; url = codes "/node" }

catch_exception-conflict_example :
    ((catch_exception js target []
        (thrown_of nest (conflict (codes "OPERATION_IN_PROGRESS")))).status
      ≡ (catch_exception js target [] (thrown_of nest (version_conflict 4))).status)
    × ((catch_exception js target []
          (thrown_of nest (conflict (codes "OPERATION_IN_PROGRESS")))).body
        ≡ (catch_exception js target [] (thrown_of nest (version_conflict 4))).body)
catch_exception-conflict_example =
    catch_exception-conflict js nest nest-IsNest target [] (codes "OPERATION_IN_PROGRESS") 4

abbrev post : HttpRequest
post = record {
  method = codes "POST";
  url = codes "/node";
  path = codes "/node";
  route = some (codes "/node");
  ip = none;
  forwarded_for = none;
  request_id = undefined;
  user_id = some (codes "u");
  skip_transform = false;
}

abbrev exchange : {W : Type 0} → W → Exchange W
exchange w = record { context = none; clock = 7; status_code = 201; outputs = []; world = w }

abbrev not_found_exception : HttpException
not_found_exception = record {
  name = codes "NotFoundException";
  status = 404;
  message = [];
  response = undefined;
}

abbrev failing : Handler (Unit {0})
failing x = (raised [] (http not_found_exception), record x { clock = 9 })

serve-counted_as_500_example :
    let y = record (at_handler js post false [] (codes "id") failing (exchange tt)) { clock = 9 } in
    let q = serve js false [] post (codes "id") failing (exchange tt) in
    (labels q.1 ≡ labels y ++ decimal 500 ∷ []) × (q.0.status ≡ 404)
unfolding at_handler
serve-counted_as_500_example =
    serve-counted_as_500 js post false [] (codes "id") failing (exchange tt) [] not_found_exception
      _ refl (omega arith)

refused : execute_content_operation (app viewer) request (start []) ≡ (
  err (unauthorized (codes "노드를 수정할 권한이 없습니다.")),
  (execute_content_operation (app viewer) request (start [])).1,
)
unfolding server
refused = refl

serve-content_handler_example :
    (serve js true [] post
      (codes "id")
      (content_handler nest (λ response. undefined) (λ fault. []) (app viewer) request)
      (exchange (start []))).0.status
    ≡ 401
serve-content_handler_example =
    serve-content_handler nest (λ response. undefined) (λ fault. []) (app viewer) js nest-IsNest
      true [] post (codes "id") (exchange (start [])) request
      (unauthorized (codes "노드를 수정할 권한이 없습니다."))
      (execute_content_operation (app viewer) request (start [])).1 401 refused refl
