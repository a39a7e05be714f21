-- ===== src/Http/Faults.antt =====
-- The faults of the services as what they throw: the exceptions of NestJS, and plain errors.
use aideep_websocket.Common.{
  ℕ, Text, codes, [], ◌∷◌, ◌++◌, ◌≡◌, Fault, node_gone, not_loaded, not_initialized, invalid_url,
  bad_request, not_found, unprocessable, unauthorized, conflict, missing, version_conflict,
  external,
}
use aideep_websocket.Js.{Value, Entries, undefined, object, object_of, string, number, property}
use aideep_websocket.Http.Errors.{HttpException, Thrown, http, error}

-- The classes of NestJS that the services throw.
pub data ExceptionClass : Type 0 where
  bad_request_exception not_found_exception unprocessable_entity_exception : ExceptionClass
  unauthorized_exception conflict_exception : ExceptionClass

-- new XException(objectOrMessage), and what a call of a service or a library rejects with
pub record Nest : Type 0 where
  pub exception : ExceptionClass → Value → HttpException
  pub rejection : ℕ → Thrown

abbrev pub class_status : ExceptionClass → ℕ
class_status bad_request_exception = 400
class_status unauthorized_exception = 401
class_status not_found_exception = 404
class_status conflict_exception = 409
class_status unprocessable_entity_exception = 422

-- The documentation of NestJS: a class has its status; the response of an exception that is made
-- from an object is this object, and where it has no message, the message is made from the name of
-- the class.
pub record IsNest (nest : Nest) : Type 0 where
  pub class_message : ExceptionClass → Text
  pub status-exception :
      (c : ExceptionClass) (v : Value) → (nest.exception c v).status ≡ class_status c
  pub response-exception :
      (c : ExceptionClass) (o : Entries) → (nest.exception c (object o)).response ≡ object o
  pub message-exception :
      (c : ExceptionClass) (o : Entries)
      → property (codes "message") o ≡ undefined
      → (nest.exception c (object o)).message ≡ class_message c

abbrev pub with_code : Text → Value
with_code code = object_of ((codes "code", string code) ∷ [])

unfoldable pub thrown_of : Nest → Fault → Thrown
thrown_of nest (bad_request code) = http (nest.exception bad_request_exception (with_code code))
thrown_of nest (not_found code) = http (nest.exception not_found_exception (with_code code))
thrown_of nest (unprocessable code) =
    http (nest.exception unprocessable_entity_exception (with_code code))
thrown_of nest (conflict code) = http (nest.exception conflict_exception (with_code code))
thrown_of nest (missing message) = http (nest.exception not_found_exception (string message))
thrown_of nest (unauthorized message) =
    http (nest.exception unauthorized_exception (string message))
thrown_of nest (version_conflict current) = http (
    nest.exception conflict_exception (
      object_of (
        (codes "code", string (codes "VERSION_CONFLICT"))
        ∷ (codes "currentVersion", number current)
        ∷ [])))
thrown_of nest (node_gone node_id) =
    error (codes "Error") (codes "Node no longer exists: " ++ node_id)
thrown_of nest (not_loaded node_id) =
    error (codes "Error") (codes "Yjs doc is not loaded: " ++ node_id)
thrown_of nest (invalid_url url) = error (codes "Error") (codes "Invalid S3 URL format: " ++ url)
thrown_of nest not_initialized = error (codes "Error") (codes "PrismaService가 아직 초기화되지 않았습니다.")
thrown_of nest (external n) = nest.rejection n
