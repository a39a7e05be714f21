-- ===== src/Examples/Rows.antt =====
-- The save of a row of `nodes`, in a world that is the table alone.
use aideep_websocket.Common.{
  Text, ◌≡◌, refl, true, Option, none, some, [], ok, err, external, pure, codes, text_eq,
  if◌then◌else◌, arith,
}
use aideep_websocket.Env.{Env}
use aideep_websocket.Env.Database.{NodeRow, Persisted, Prisma, editor}
use aideep_websocket.Yjs.CrdtService.{save_to_db}
use aideep_websocket.Yjs.CrdtService.Rows.{IsNodeTable, IsSavedRow, save_to_db-IsSavedRow}
use aideep_websocket.Examples.World.{env, crdt, node, workspace, row}
use aideep_websocket.Examples.Opened.{documents}

abbrev Table : Type 0
Table = Text → Option NodeRow

abbrev nodes : Prisma Table
nodes = record {
  nodes_find_unique = λ n t. (ok (t n), t);
  nodes_find_first = λ test. pure none;
  nodes_update = λ n change t. elim (t n) [
    | none ↦ (err (external 25), t)
    | some r ↦ (ok (change r), λ m. if text_eq n m then some (change r) else t m)
  ];
  transaction = λ body. body;
  members_find_unique = λ user_id workspace_id test. pure none;
  files_find_many = λ test. pure [];
  files_update_many = λ test change. pure tt;
  attachments_find_many = λ test. pure [];
  attachments_create_many = λ rows. pure tt;
  attachments_delete_many = λ test. pure tt;
  attachments_group_by_file = λ test. pure [];
}

abbrev table_env : Env Text Text Table
table_env = record {
  redis = record {
    get = λ key. pure none;
    set = λ key value ttl. pure tt;
    set_nx = λ key value ttl. pure true;
    del = λ key. pure tt;
    h_set = λ key field value. pure tt;
    expire = λ key ttl. pure tt;
    h_del = λ key field. pure tt;
    h_get_all = λ key. pure [];
    r_push = λ key value. pure tt;
  };
  prisma = nodes;
  crdt = crdt;
  base64 = (env editor).base64;
  date_now = λ t. 5;
  random_uuid = pure [];
  stringify_content = λ content. [];
  editor_to_json = (env editor).editor_to_json;
  bucket = codes "b";
  region = codes "r";
}

nodes-IsNodeTable : IsNodeTable table_env (λ n t. t n)
nodes-IsNodeTable = record {
  finds = λ n w w' found e. (ground arith, λ m. ground arith);
  updates = λ n change w w' old new there e. (ground arith, λ m. ground arith);
  transacts = λ body w w' u e. e;
  quiet = λ m r. record {
    finds_files = λ test w h. h;
    updates_files = λ test change w h. h;
    finds_attachments = λ test w h. h;
    creates_attachments = λ rows w h. h;
    deletes_attachments = λ test w h. h;
    groups_attachments = λ test w h. h;
  };
  deletes = λ key m r w h. h;
}

abbrev one_row : Table
one_row n = if text_eq n node then some row else none

abbrev saved : Table
saved = (save_to_db table_env node (codes "s") (codes "m") workspace [] one_row).1

abbrev answer : Persisted
answer = record { version = 4; updated_at = 5 }

saves : save_to_db table_env node (codes "s") (codes "m") workspace [] one_row ≡ (ok answer, saved)
unfolding documents
saves = refl

save_to_db-IsSavedRow_example :
    (old : NodeRow) × (one_row node ≡ some old)
    × IsSavedRow table_env
        (λ n t. t n)
        nodes-IsNodeTable
        node
        (codes "s")
        (codes "m")
        old
        answer
        one_row
        saved
save_to_db-IsSavedRow_example =
    save_to_db-IsSavedRow table_env (λ n t. t n) nodes-IsNodeTable node (codes "s") (codes "m")
      workspace [] answer one_row saved saves
