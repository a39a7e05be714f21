-- ===== src/Http/Filter.antt =====
-- src/global/common/error/http-exception.filter.ts: the answer to an exception.
use aideep_websocket.Common.{ℕ, Text, codes, Option, none, some, [], ◌++◌, leb, if◌then◌else◌}
use aideep_websocket.Js.{
  Value, string, array, object, Js, property, truthy, string_of, join_texts, item_texts,
}
use aideep_websocket.Js.Decimal.{decimal}
use aideep_websocket.Http.Errors.{
  BasicError, HttpException, Thrown, basic, http, prisma, error, thrown_value, to_json, fail_body,
}

-- request.method and request.url
pub record Target : Type 0 where
  pub method : Text
  pub url : Text

-- logger.error(message, stack, context)
pub record ErrorLine : Type 0 where
  pub message : Text
  pub stack : Option Text
  pub context : Text

-- response.status(status).json(body), and the line that is logged first
pub record Reply : Type 0 where
  pub status : ℕ
  pub body : Value
  pub logged : ErrorLine

abbrev pub head : Target → Text
head target = codes "[Exception] " ++ target.method ++ codes " " ++ target.url ++ codes " "

unfoldable pub error_line : Text → Option Text → ErrorLine
error_line message stack = record {
  message = message;
  stack = stack;
  context = codes "ExceptionFilter";
}

module _ (js : Js) where
  unfoldable pub reason_in : Text → Value → Text
  reason_in message (array items) = join_texts (codes ", ") (item_texts js items)
  reason_in message (string text) = text
  reason_in message other = message

  -- `reason`: the message in the response of the exception, or that of the exception
  unfoldable pub reason_of : HttpException → Text
  unfolding reason_in property
  reason_of e = elim e.response [
    | object fields ↦ reason_in e.message (property (codes "message") fields)
    | _ ↦ e.message
  ]

  -- `data`: res.error || ''
  unfoldable pub data_of : HttpException → Value
  unfolding property truthy
  data_of e = elim e.response [
    | object fields ↦
        if truthy (property (codes "error") fields)
        then property (codes "error") fields
        else string []
    | _ ↦ string []
  ]

  unfoldable pub answer_basic : Target → Text → BasicError → Reply
  unfolding error_line to_json
  answer_basic target stack e = record {
    status = e.status;
    body = to_json e;
    logged = error_line (head target ++ decimal e.status ++ codes " - " ++ e.message) (some stack);
  }

  unfoldable pub answer_http : Target → Text → HttpException → Reply
  unfolding error_line fail_body reason_of data_of
  answer_http target stack e = record {
    status = e.status;
    body = fail_body (codes "HTTP-" ++ decimal e.status) (reason_of e) (data_of e);
    logged =
        error_line (head target ++ decimal e.status ++ codes " - " ++ reason_of e)
          (if leb 500 e.status then some stack else none);
  }

  unfoldable pub answer_other : Target → Text → Reply
  unfolding error_line fail_body
  answer_other target detail = record {
    status = 500;
    body = fail_body (codes "COMMON-500") (codes "서버 내부 오류가 발생했습니다.") (string []);
    logged = error_line (head target ++ codes "500 - Unhandled exception") (some detail);
  }

  -- catch(exception, host), for an Error with its stack
  unfoldable pub catch_exception : Target → Text → Thrown → Reply
  unfolding answer_basic answer_http answer_other
  catch_exception target stack (basic e) = answer_basic target stack e
  catch_exception target stack (http e) = answer_http target stack e
  catch_exception target stack (prisma e) = answer_other target stack
  catch_exception target stack (error name message) = answer_other target stack
  catch_exception target stack (thrown_value v) = answer_other target (string_of js v)
