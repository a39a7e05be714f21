-- ===== src/Examples/World.antt =====
-- A world in memory: one node, its members, the texts of Redis; a document is the text of its updates.
use aideep_websocket.Common.{
  Text, codes, true, false, none, some, [], ◌∷◌, ◌++◌, ok, err, pure, throw, external,
  if◌then◌else◌,
}
use aideep_websocket.Common.Dict
use aideep_websocket.Common.Dict.{Dict}
use aideep_websocket.App.{App}
use aideep_websocket.Env.{Env, JsonCodec}
use aideep_websocket.Env.Cache.{Redis}
use aideep_websocket.Env.Database.{NodeRow, Membership, Role, Prisma, str}
use aideep_websocket.Env.Documents.{Crdt}
use aideep_websocket.Yjs.Managed.{EmbedJob}
use aideep_websocket.NodeContent.Operation.{Claim, OperationResponse, append_markdown}
use aideep_websocket.NodeContent.Service.{Request}
use aideep_websocket.EventBus.Contract.{unknown}

abbrev pub World : Type 0
World = Dict Text

abbrev pub node : Text
node = codes "n"

abbrev pub workspace : Text
workspace = codes "w"

abbrev pub user : Text
user = codes "u"

abbrev pub redis : Redis World
redis = record {
  get = λ key w. (ok (Dict.get key w), w);
  set = λ key value ttl w. (ok tt, Dict.insert key value w);
  set_nx = λ key value ttl w. elim (Dict.get key w) [
    | none ↦ (ok true, Dict.insert key value w)
    | some _ ↦ (ok false, w)
  ];
  del = λ key w. (ok tt, Dict.remove key w);
  h_set = λ key field value. pure tt;
  expire = λ key ttl. pure tt;
  h_del = λ key field. pure tt;
  h_get_all = λ key. pure [];
  r_push = λ key value. pure tt;
}

abbrev pub row : NodeRow
row = record {
  node_id = node;
  content = some ((codes "dataType", str (codes "MARKDOWN")) ∷ []);
  version = 3;
  updated_at = 0;
  deleted_at = none;
  workspace_id = workspace;
  yjs_state = none;
}

-- Every user is a member of every workspace.
abbrev pub member_of : Role → Text → Text → Membership
member_of role user_id workspace_id = record {
  user_id = user_id;
  workspace_id = workspace_id;
  role = role;
  deleted_at = none;
}

abbrev pub member : Role → Membership
member role = member_of role user workspace

abbrev pub prisma : Role → Prisma World
prisma role = record {
  nodes_find_unique = λ id. pure (some row);
  nodes_find_first = λ test. pure (if test row then some row else none);
  nodes_update = λ id change. pure (change row);
  transaction = λ body. body;
  members_find_unique = λ user_id workspace_id test.
      let m = member_of role user_id workspace_id in pure (if test m then some m else none);
  files_find_many = λ test. pure [];
  files_update_many = λ test change. pure tt;
  attachments_find_many = λ test. pure [];
  attachments_create_many = λ rows. pure tt;
  attachments_delete_many = λ test. pure tt;
  attachments_group_by_file = λ test. pure [];
}

abbrev pub crdt : Crdt Text Text
crdt = record {
  new_doc = [];
  apply_update = λ doc update. ok (doc ++ update);
  get_root = λ doc. doc;
  root_text = λ doc. doc;
  encode_state_as_update = λ doc. doc;
  encode_state_as_update_since = λ doc vector. doc;
  encode_state_vector = λ doc. doc;
  create_editor = λ doc. doc;
  sync_children_from_yjs = λ editor doc. ok editor;
  convert_from_markdown = λ editor doc text. ok (text, text);
  convert_to_markdown = λ editor. editor;
  read_sync_message = λ doc bytes. ok (record { message_type = 2; reply = []; doc = doc ++ bytes });
  write_sync_step1 = λ doc. doc;
  write_update = λ update. update;
}

abbrev pub env : Role → Env Text Text World
env role = record {
  redis = redis;
  prisma = prisma role;
  crdt = crdt;
  base64 = record { encode = λ bytes. bytes; decode = λ text. text };
  date_now = λ w. 0;
  random_uuid = pure (codes "id");
  stringify_content = λ content. [];
  editor_to_json = λ editor. str editor;
  bucket = codes "b";
  region = codes "r";
}

abbrev pub jobs : JsonCodec EmbedJob
jobs = record { stringify = λ job. job.node_id; parse = λ text. err (external 0) }

abbrev pub response : OperationResponse
response = record {
  operation_id = codes "id";
  node_id = node;
  operation = append_markdown;
  previous_version = 3;
  version = 4;
  updated_at = 0;
  duplicate = false;
}

-- The record that the one operation of the examples leaves.
abbrev pub done : Claim
done = record { request_hash = some (codes "h"); state = none; response = some response }

abbrev pub app_of : Env Text Text World → App Text Text World
app_of e = record {
  env = e;
  jobs = jobs;
  members = record { stringify = λ m. m.user_id; parse = λ text. err (external 0) };
  claims = record { stringify = λ claim. codes "claim"; parse = λ text. ok done };
  envelopes = record {
    stringify = λ envelope. [];
    parse = λ text.
        ok (record {
          v = 1;
          message_id = [];
          published_at = [];
          origin = [];
          payload = unknown text;
        });
  };
  verify = λ token. ok (some token);
  request_hash = λ body. codes "h";
}

abbrev pub app : Role → App Text Text World
app role = app_of (env role)

-- A world whose Redis refuses to drop a member of the presence.
abbrev pub broken : Role → App Text Text World
broken role =
    app_of (record (env role) { redis = record redis { h_del = λ key field. throw (external 1) } })

abbrev pub request : Request
request = record {
  user_id = user;
  workspace_id = workspace;
  node_id = node;
  idempotency_key = codes "12345678";
  body = record {
    operation = append_markdown;
    markdown = codes "a";
    expected_version = some 3;
    source = record { actor_id = user; meeting_id = none; chunk_id = none };
  };
}
