-- ===== src/Examples/Files.antt =====
-- A node whose content names another file than the one that is attached to it.
use aideep_websocket.Common.{
  Text, codes, ◌≡◌, refl, Bool, true, false, not, ◌&&◌, ◌||◌, none, some, List, [], ◌∷◌, ◌++◌, map,
  ok, err, external, pure, text_eq, text_eq_iff, if◌then◌else◌, arith,
}
use aideep_websocket.Common.Items
use aideep_websocket.Env.{Env}
use aideep_websocket.Env.Database.{Prisma, AttachmentRow, FileRow, pending, editor}
use aideep_websocket.Attachments.{
  sync_node_attachments, release_node_attachments, extract_referenced_file_ids,
}
use aideep_websocket.Attachments.Tables.{IsTables, attachment, has_row}
use aideep_websocket.Attachments.Tables.Sync.{sync_node_attachments-attached}
use aideep_websocket.Examples.World.{env, crdt, node, workspace}
use aideep_websocket.Examples.Opened.{documents}

-- The two tables.
pub record Shelf : Type 0 where
  pub attachments : List AttachmentRow
  pub files : List FileRow

abbrev pub attached : Text → Text → Shelf → Bool
attached n f s = has_row n f s.attachments

module _ {ℓ} {A : Type ℓ} where
  abbrev pub keep : (A → Bool) → List A → List A
  keep test [] = []
  keep test (x ∷ xs) = let rest = keep test xs in if test x then x ∷ rest else rest

  abbrev pub change_where : (A → Bool) → (A → A) → List A → List A
  change_where test change [] = []
  change_where test change (x ∷ xs) = (if test x then change x else x) ∷ change_where test change xs

abbrev pub tables : Prisma Shelf
tables = record {
  nodes_find_unique = λ id. pure none;
  nodes_find_first = λ test. pure none;
  nodes_update = λ id change s. (err (external 0), s);
  transaction = λ body. body;
  members_find_unique = λ user_id workspace_id test. pure none;
  files_find_many = λ test s. (ok (keep test s.files), s);
  files_update_many =
      λ test change s. (ok tt, record s { files = change_where test change s.files });
  attachments_find_many = λ test s. (ok (keep test s.attachments), s);
  attachments_create_many = λ rows s. (ok tt, record s { attachments = s.attachments ++ rows });
  attachments_delete_many =
      λ test s. (ok tt, record s { attachments = keep (λ a. not (test a)) s.attachments });
  attachments_group_by_file =
      λ test s. (ok (map (λ a. (a.file_id, 1)) (keep test s.attachments)), s);
}

pub has_row-keep :
    (n f : Text) (test : AttachmentRow → Bool) (rows : List AttachmentRow)
    → has_row n f (keep test rows) ≡ (has_row n f rows && test (attachment n f))
unfolding has_row
has_row-keep n f test [] = refl
has_row-keep n f test (a ∷ rows) =
    ground (arith, has_row-keep n f test rows, text_eq_iff a.node_id n, text_eq_iff a.file_id f)

has_row-append :
    (n f : Text) (rows more : List AttachmentRow)
    → has_row n f (rows ++ more) ≡ (has_row n f rows || has_row n f more)
unfolding has_row
has_row-append n f [] more = refl
has_row-append n f (a ∷ rows) more = ground (arith, has_row-append n f rows more)

pub tables-IsTables : IsTables tables attached
tables-IsTables = record {
  finds =
      λ test w w' rows e n f. (ground (arith, has_row-keep n f test w.attachments), ground arith);
  creates = λ rows w w' e n f. ground (arith, has_row-append n f w.attachments rows);
  deletes = λ test w w' e n f. ground (arith, has_row-keep n f (λ a. not (test a)) w.attachments);
  groups = λ test w w' counts e n f. ground arith;
  finds_files = λ test w w' files e n f. ground arith;
  updates_files = λ test change w w' e n f. ground arith;
}

abbrev pub shelf_env : Env Text Text Shelf
shelf_env = record {
  redis = record {
    get = λ key. pure none;
    set = λ key value ttl. pure tt;
    set_nx = λ key value ttl. pure true;
    del = λ key. pure tt;
    h_set = λ key field value. pure tt;
    expire = λ key ttl. pure tt;
    h_del = λ key field. pure tt;
    h_get_all = λ key. pure [];
    r_push = λ key value. pure tt;
  };
  prisma = tables;
  crdt = crdt;
  base64 = (env editor).base64;
  date_now = λ w. 5;
  random_uuid = pure [];
  stringify_content = λ content. codes "see https://b.s3.r.amazonaws.com/k1) here";
  editor_to_json = (env editor).editor_to_json;
  bucket = codes "b";
  region = codes "r";
}

abbrev pub file : Text → Text → FileRow
file id key = record {
  file_id = id;
  s3_key = key;
  workspace_id = workspace;
  status = pending;
  orphaned_at = none;
  created_at = 0;
  updated_at = 0;
  deleted_at = none;
}

-- "f0" is attached, and the content names "f1".
abbrev shelf : Shelf
shelf = record {
  attachments = attachment node (codes "f0") ∷ attachment (codes "m") (codes "f0") ∷ [];
  files = file (codes "f0") (codes "k0") ∷ file (codes "f1") (codes "k1") ∷ [];
}

abbrev synced : Shelf
synced = (sync_node_attachments shelf_env node workspace (some []) shelf).1

syncs : sync_node_attachments shelf_env node workspace (some []) shelf ≡ (ok tt, synced)
unfolding documents
syncs = refl

swaps : (attached node (codes "f1") synced ≡ true) × (attached node (codes "f0") synced ≡ false)
unfolding documents has_row
swaps = (refl, refl)

sync_node_attachments-attached_example :
    (ids : List Text) × (w₁ : Shelf) × (extract_referenced_file_ids shelf_env
        (some [])
        workspace
        shelf
      ≡ (ok ids, w₁))
    × ((n f : Text)
        → attached n f synced ≡ (if text_eq n node then Items.has f ids else attached n f shelf))
sync_node_attachments-attached_example =
    sync_node_attachments-attached shelf_env attached tables-IsTables node workspace (some []) shelf
      synced syncs

abbrev released : Shelf
released = (release_node_attachments shelf_env node shelf).1

releases : release_node_attachments shelf_env node shelf ≡ (ok tt, released)
unfolding documents
releases = refl
