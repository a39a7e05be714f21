-- ===== src/Http/Errors.antt =====
-- src/global/common/error/basic-error.ts and db-error-handler.ts, and what else may be thrown.
use aideep_websocket.Common.{ℕ, Text, codes, [], ◌∷◌, ◌++◌, if◌then◌else◌, text_eq}
use aideep_websocket.Js.{Value, null, string, array, object_of, Js, or_else, string_of}
use aideep_websocket.Js.{join_texts, item_texts}

-- class BasicError, with its `name`
pub record BasicError : Type 0 where
  pub status : ℕ
  pub code : Text
  pub message : Text
  pub description : Value
  pub name : Text

-- The HttpException of NestJS: its name, getStatus(), message and getResponse().
pub record HttpException : Type 0 where
  pub name : Text
  pub status : ℕ
  pub message : Text
  pub response : Value

-- Prisma.PrismaClientKnownRequestError: code, message and meta?.target
pub record PrismaError : Type 0 where
  pub code : Text
  pub message : Text
  pub target : Value

-- What can be thrown: an error of a class that the server tells apart, another Error, or a value.
pub data Thrown : Type 0 where
  basic : BasicError → Thrown
  http : HttpException → Thrown
  prisma : PrismaError → Thrown
  -- the name and the message
  error : Text → Text → Thrown
  thrown_value : Value → Thrown

-- The object with resultType 'FAIL'.
unfoldable pub fail_body : Text → Text → Value → Value
fail_body error_code reason detail = object_of (
    (codes "resultType", string (codes "FAIL"))
    ∷ (
      codes "error",
      object_of (
          (codes "errorCode", string error_code)
          ∷ (codes "reason", string reason)
          ∷ (codes "data", detail)
          ∷ []),
    )
    ∷ (codes "success", null)
    ∷ [])

-- toJSON()
unfoldable pub to_json : BasicError → Value
unfolding fail_body
to_json e = fail_body e.code e.message e.description

unfoldable pub unique_constraint_error : Text → BasicError
unique_constraint_error description = record {
  status = 409;
  code = codes "DB-P2002";
  message = codes "이미 존재하는 데이터입니다.";
  description = string description;
  name = codes "DatabaseUniqueConstraintError";
}

unfoldable pub foreign_key_error : Text → BasicError
foreign_key_error description = record {
  status = 400;
  code = codes "DB-P2003";
  message = codes "참조하는 데이터가 존재하지 않습니다.";
  description = string description;
  name = codes "DatabaseForeignKeyError";
}

unfoldable pub record_not_found_error : Text → BasicError
record_not_found_error description = record {
  status = 404;
  code = codes "DB-P2025";
  message = codes "요청한 데이터를 찾을 수 없습니다.";
  description = string description;
  name = codes "DatabaseRecordNotFoundError";
}

unfoldable pub database_error : PrismaError → BasicError
database_error e = record {
  status = 500;
  code = codes "DB-" ++ e.code;
  message = codes "데이터베이스 오류가 발생했습니다.";
  description = string e.message;
  name = codes "BasicError";
}

module _ (js : Js) where
  unfoldable pub target_text : Value → Text
  target_text (array items) = join_texts (codes ", ") (item_texts js items)
  target_text target = string_of js (or_else target (string []))

  -- The switch on error.code.
  unfoldable pub known_error : PrismaError → BasicError
  unfolding target_text unique_constraint_error foreign_key_error record_not_found_error
      database_error
  known_error e =
      if text_eq e.code (codes "P2002")
      then unique_constraint_error (codes "유니크 제약 조건 위반: " ++ target_text e.target)
      else if text_eq e.code (codes "P2003")
      then foreign_key_error (codes "외래키 제약 조건 위반: " ++ target_text e.target)
      else if text_eq e.code (codes "P2025")
      then record_not_found_error (codes "레코드를 찾을 수 없습니다.")
      else database_error e

  -- What `handleDbError` throws.
  unfoldable pub handle_db_error : Thrown → Thrown
  unfolding known_error
  handle_db_error (prisma e) = basic (known_error e)
  handle_db_error thrown = thrown
