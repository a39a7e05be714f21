-- ===== src/Examples/Hashes.antt =====
-- A Redis that keeps hashes, and texts of members that can be read back.
use aideep_websocket.Common.{
  ℕ, Text, ◌≡◌, refl, sym, ap, Bool, true, false, Option, none, some, [], ◌∷◌, ◌++◌, Result, ok,
  err, external, pure, text_eq, if◌then◌else◌, suc, inl, inr, Bool-cases, zero, arith,
}
use aideep_websocket.Common.Strings.{text_eq_iff, text_eq_refl}
use aideep_websocket.Common.Lists.{length, take}
use aideep_websocket.Common.Dict
use aideep_websocket.Common.Dict.{Dict}
use aideep_websocket.App.{App}
use aideep_websocket.Env.{Env}
use aideep_websocket.Env.Cache.{Redis}
use aideep_websocket.Env.Database.{Prisma, editor}
use aideep_websocket.Ws.Event.{PresenceMember}
use aideep_websocket.Ws.Presence.Table.{All, IsHashes, set_at}
use aideep_websocket.Examples.World.{app, env}

-- A text of texts, each after its length.
abbrev pub block : Text → Text
block s = length s ∷ s

abbrev pub drop : ℕ → Text → Text
drop zero t = t
drop (suc n) [] = []
drop (suc n) (c ∷ t) = drop n t

take-length : (s t : Text) → take (length s) (s ++ t) ≡ s
take-length [] t = refl
take-length (c ∷ s) t = ap (λ rest. c ∷ rest) (take-length s t)

drop-length : (s t : Text) → drop (length s) (s ++ t) ≡ t
drop-length [] t = refl
drop-length (c ∷ s) t = drop-length s t

abbrev pub profile_text : Option Text → Text
profile_text none = []
profile_text (some text) = 0 ∷ text

abbrev pub stringify : PresenceMember → Text
stringify m = block m.user_id ++ (block m.user_name ++ (block m.color ++ profile_text m.profile))

abbrev pub first_block : Text → Text × Text
first_block [] = ([], [])
first_block (n ∷ t) = (take n t, drop n t)

abbrev pub profile_of : Text → Option Text
profile_of [] = none
profile_of (c ∷ text) = some text

abbrev pub parse : Text → Result PresenceMember
parse text =
    let (user_id, t) = first_block text in
    let (user_name, t') = first_block t in
    let (color, t'') = first_block t' in
    ok
      (record { user_id = user_id; user_name = user_name; color = color; profile = profile_of t'' })

profile_of-profile_text : (p : Option Text) → profile_of (profile_text p) ≡ p
profile_of-profile_text none = refl
profile_of-profile_text (some text) = refl

pub reads_back : (m : PresenceMember) → parse (stringify m) ≡ ok m
reads_back m =
    rw
      (
        take-length m.user_id,
        drop-length m.user_id,
        take-length m.user_name,
        drop-length m.user_name,
        take-length m.color,
        drop-length m.color,
        profile_of-profile_text m.profile,
      )
      refl

-- The hashes of Redis, by key and field.
abbrev pub Hashes : Type 0
Hashes = Dict (Dict Text)

abbrev pub fields_at : Text → Hashes → Dict Text
fields_at key w = elim (Dict.get key w) [ none ↦ [] | some fields ↦ fields ]

abbrev pub stored : Hashes → Text → Text → Option Text
stored w key field = Dict.get field (fields_at key w)

-- The entries with the first one of each field.
abbrev pub distinct : Dict Text → Dict Text
distinct [] = []
distinct ((field, text) ∷ fields) = (field, text) ∷ Dict.remove field (distinct fields)

abbrev pub hash_redis : Redis Hashes
hash_redis = record {
  get = λ key. pure none;
  set = λ key value ttl. pure tt;
  set_nx = λ key value ttl. pure true;
  del = λ key. pure tt;
  h_set =
      λ key field value w. (ok tt, Dict.insert key (Dict.insert field value (fields_at key w)) w);
  expire = λ key ttl. pure tt;
  h_del = λ key field w. (ok tt, Dict.insert key (Dict.remove field (fields_at key w)) w);
  h_get_all = λ key w. (ok (distinct (fields_at key w)), w);
  r_push = λ key value. pure tt;
}

abbrev pub hash_prisma : Prisma Hashes
hash_prisma = record {
  nodes_find_unique = λ id. pure none;
  nodes_find_first = λ test. pure none;
  nodes_update = λ id change s. (err (external 0), s);
  transaction = λ body. body;
  members_find_unique = λ user_id workspace_id test. pure none;
  files_find_many = λ test. pure [];
  files_update_many = λ test change. pure tt;
  attachments_find_many = λ test. pure [];
  attachments_create_many = λ rows. pure tt;
  attachments_delete_many = λ test. pure tt;
  attachments_group_by_file = λ test. pure [];
}

abbrev pub hash_env : Env Text Text Hashes
hash_env = record {
  redis = hash_redis;
  prisma = hash_prisma;
  crdt = (env editor).crdt;
  base64 = (env editor).base64;
  date_now = λ w. 0;
  random_uuid = pure [];
  stringify_content = λ content. [];
  editor_to_json = (env editor).editor_to_json;
  bucket = [];
  region = [];
}

abbrev pub hash_app : App Text Text Hashes
hash_app = record {
  env = hash_env;
  jobs = (app editor).jobs;
  members = record { stringify = stringify; parse = parse };
  claims = (app editor).claims;
  envelopes = (app editor).envelopes;
  verify = (app editor).verify;
  request_hash = (app editor).request_hash;
}

fields_or_none : Option (Dict Text) → Text → Option Text
fields_or_none none f = none
fields_or_none (some fields) f = Dict.get f fields

shown :
    (o : Option (Dict Text)) (f : Text)
    → Dict.get f (elim o [ none ↦ [] | some fields ↦ fields ]) ≡ fields_or_none o f
unfolding Dict.get fields_or_none
shown none f = refl
shown (some fields) f = refl

pushed :
    (fields : Dict Text) (o : Option (Dict Text)) (f : Text) (b : Bool)
    → fields_or_none (if b then some fields else o) f
      ≡ (if b then Dict.get f fields else fields_or_none o f)
unfolding fields_or_none
pushed fields o f true = refl
pushed fields o f false = refl

ok_injective : {A : Type 0} {a b : A} → ok a ≡ ok b → a ≡ b
ok_injective h = ground arith

stored-insert :
    (key : Text) (fields : Dict Text) (w : Hashes) (k f : Text)
    → stored (Dict.insert key fields w) k f
      ≡ (if text_eq key k then Dict.get f fields else stored w k f)
stored-insert key fields w k f =
    rw (shown, shown, Dict.get-insert key k fields w)
      (pushed fields (Dict.get k w) f (text_eq key k))

-- Both changes of a hash, as a change of its fields.
stored-change :
    (key field : Text) (value : Option Text) (fields : Dict Text) (w : Hashes) (k f : Text)
    → Dict.get f fields ≡ (if text_eq field f then value else stored w key f)
    → stored (Dict.insert key fields w) k f ≡ set_at key field value (stored w) k f
stored-change key field value fields w k f h =
    rw (stored-insert key fields w k f, h)
      (ground
        (arith, text_eq_iff key k, text_eq_iff k key, text_eq_iff field f, text_eq_iff f field))

get-distinct : (f : Text) (fields : Dict Text) → Dict.get f (distinct fields) ≡ Dict.get f fields
unfolding Dict.get
get-distinct f [] = refl
get-distinct f ((field, text) ∷ fields) =
    ground (arith, Dict.get-remove field f (distinct fields), get-distinct f fields)

All-remove :
    (P Q : Text × Text → Type 0) (field : Text) (fields : Dict Text)
    → ((e : Text × Text) → text_eq e.0 field ≡ false → P e → Q e)
    → All P fields
    → All Q (Dict.remove field fields)
unfolding Dict.remove
All-remove P Q field [] h are = tt
All-remove P Q field ((name, text) ∷ fields) h (p, are) = elim (Bool-cases (text_eq name field)) [
  | inl b ↦ rw b (All-remove P Q field fields h are)
  | inr b ↦ rw b (h (name, text) b p, All-remove P Q field fields h are)
]

distinct-All :
    (fields : Dict Text)
    → All (λ (e : Text × Text). Dict.get e.0 fields ≡ some e.1) (distinct fields)
unfolding Dict.get
distinct-All [] = tt
distinct-All ((field, text) ∷ fields) = (
  rw (text_eq_refl field) refl,
  All-remove _ _ field (distinct fields)
      (λ e b p. ground (arith, p, text_eq_iff e.0 field, text_eq_iff field e.0))
      (distinct-All fields),
)

pub hash_redis-IsHashes : IsHashes hash_app stored
hash_redis-IsHashes = record {
  sets = λ key field value w w' e k f. rw (sym (ap (λ p. p.1) e)) (
      stored-change key field (some value) _ w k f
        (Dict.get-insert field f value (fields_at key w)));
  expires = λ key w w' e k f. ground arith;
  deletes = λ key field w w' e k f.
      rw (sym (ap (λ p. p.1) e))
        (stored-change key field none _ w k f (Dict.get-remove field f (fields_at key w)));
  gets = λ key w w' entries e f.
      rw (sym (ok_injective (ap (λ p. p.0) e))) (get-distinct f (fields_at key w));
  entries_are_stored = λ key w w' entries e.
      rw (sym (ok_injective (ap (λ p. p.0) e))) (distinct-All (fields_at key w));
}
