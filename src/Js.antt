-- ===== src/Js.antt =====
-- The values that a message, a log line or an answer is made of, and how JavaScript writes them as
-- texts. JSON.stringify and the decoding of bytes are the environment's.
pub mod Decimal
use aideep_websocket.Common.{
  ℕ, Text, Bytes, codes, Bool, true, false, Option, none, some, List, [], ◌∷◌, ◌++◌, is_empty, not,
  text_eq, if◌then◌else◌, ◌==◌,
}
use Decimal.{decimal}

mutual
  pub data Value : Type 0 where
    undefined : Value
    null : Value
    boolean : Bool → Value
    number : ℕ → Value
    string : Text → Value
    -- a Buffer or a Uint8Array
    buffer : Bytes → Value
    array : Values → Value
    object : Entries → Value

  pub data Values : Type 0 where
    nil : Values
    cons : Value → Values → Values

  -- Object.entries, in the order of insertion
  pub data Entries : Type 0 where
    end : Entries
    entry : Text → Value → Entries → Entries

pub record Js : Type 0 where
  -- JSON.stringify, which has no text for undefined and leaves out the fields of an object that are
  -- undefined; it throws on cycles, which no Value has
  pub stringify : Value → Option Text
  -- Buffer.byteLength(text)
  pub byte_length : Text → ℕ
  -- String(bytes)
  pub decode : Bytes → Text

abbrev pub entries : List (Text × Value) → Entries
entries [] = end
entries ((key, value) ∷ rest) = entry key value (entries rest)

-- The object with these fields.
abbrev pub object_of : List (Text × Value) → Value
object_of fields = object (entries fields)

-- object[key], which is undefined for a key that is missing
unfoldable pub property : Text → Entries → Value
property key end = undefined
property key (entry k v rest) = if text_eq k key then v else property key rest

-- Boolean(value)
unfoldable pub truthy : Value → Bool
truthy undefined = false
truthy null = false
truthy (boolean b) = b
truthy (number n) = not (n == 0)
truthy (string s) = not (is_empty s)
truthy (buffer b) = true
truthy (array a) = true
truthy (object o) = true

-- value ?? other
abbrev pub or_else : Value → Value → Value
or_else undefined other = other
or_else null other = other
or_else value other = value

-- `${JSON.stringify(value)}`
abbrev pub json_text : Js → Value → Text
json_text js value = elim (js.stringify value) [ none ↦ codes "undefined" | some text ↦ text ]

-- a value that may be missing
abbrev pub maybe_string : Option Text → Value
maybe_string none = undefined
maybe_string (some text) = string text

-- a value that is null where it is missing
abbrev pub string_or_null : Option Text → Value
string_or_null none = null
string_or_null (some text) = string text

-- parts.join(separator)
unfoldable pub join_texts : Text → List Text → Text
join_texts separator [] = []
join_texts separator (part ∷ []) = part
join_texts separator (part ∷ next ∷ parts) =
    part ++ separator ++ join_texts separator (next ∷ parts)

module _ (js : Js) where
  unfoldable mutual
    -- String(value)
    pub string_of : Value → Text
    string_of undefined = codes "undefined"
    string_of null = codes "null"
    string_of (boolean b) = if b then codes "true" else codes "false"
    string_of (number n) = decimal n
    string_of (string s) = s
    string_of (buffer b) = js.decode b
    string_of (array a) = join_texts (codes ",") (item_texts a)
    string_of (object o) = codes "[object Object]"

    -- What the elements of an array are written as by join: null and undefined are empty.
    pub item_texts : Values → List Text
    item_texts nil = []
    item_texts (cons undefined rest) = [] ∷ item_texts rest
    item_texts (cons null rest) = [] ∷ item_texts rest
    item_texts (cons value rest) = string_of value ∷ item_texts rest
