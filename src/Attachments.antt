-- ===== src/Attachments.antt =====
-- src/domain/file-attachment: the repository's queries and the service that keeps
-- `file_attachments` and the status of `files` in step with what a node's content names.
pub mod Urls
pub mod Tables
pub mod Quiet
pub mod Stale
pub mod Active
use aideep_websocket.Common.{
  ℕ, Text, Bool, true, false, not, ◌&&◌, Option, none, some, List, [], ◌∷◌, map, Result, Io, pure,
  lift, ◌>>=◌, ◌>>◌, ltb, text_eq, is_empty, if◌then◌else◌,
}
use aideep_websocket.Common.Dict
use aideep_websocket.Common.Items
use aideep_websocket.Env.{Env, now}
use aideep_websocket.Env.Database.{
  Content, FileRow, AttachmentRow, FileStatus, active, orphan, deleted, pending,
}
use Urls.{match_urls, get_public_url, extract_keys, distinct}

-- deleted_at: null
abbrev pub is_null {ℓ} : {A : Type ℓ} → Option A → Bool
is_null none = true
is_null (some a) = false

-- xs.filter((x) => !set.has(x)), and xs.filter((x) => !map.has(x)).
unfoldable pub without : List Text → List Text → List Text
without seen [] = []
without seen (x ∷ xs) = let rest = without seen xs in if Items.has x seen then rest else x ∷ rest

-- A date that is null is before no other.
abbrev before : Option ℕ → ℕ → Bool
before none threshold = false
before (some date) threshold = ltb date threshold

abbrev stale_as : FileStatus → FileRow → ℕ → Bool
stale_as orphan f threshold = before f.orphaned_at threshold
stale_as pending f threshold = ltb f.created_at threshold
stale_as active f threshold = false
stale_as deleted f threshold = false

-- The `where` of `findStaleFiles`.
unfoldable pub is_stale : ℕ → FileRow → Bool
is_stale threshold f = is_null f.deleted_at && stale_as f.status f threshold

module _ {D E W : Type 0} (env : Env D E W) where
  -- The repository.
  unfoldable pub find_file_ids_by_s3_keys : List Text → Text → Io W (List Text)
  find_file_ids_by_s3_keys s3_keys workspace_id = do
    files ← env.prisma.files_find_many (λ f.
        Items.has f.s3_key s3_keys && text_eq f.workspace_id workspace_id && is_null f.deleted_at)
    pure (map (λ f. f.file_id) files)

  unfoldable pub find_attached_file_ids_by_node_id : Text → Io W (List Text)
  find_attached_file_ids_by_node_id node_id = do
    attachments ← env.prisma.attachments_find_many (λ a. text_eq a.node_id node_id)
    pure (map (λ a. a.file_id) attachments)

  unfoldable pub create_attachments : Text → List Text → Io W (Unit {0})
  create_attachments node_id file_ids =
      env.prisma.attachments_create_many
        (map (λ file_id. record { file_id = file_id; node_id = node_id }) file_ids)

  unfoldable pub delete_attachments : Text → List Text → Io W (Unit {0})
  delete_attachments node_id file_ids =
      env.prisma.attachments_delete_many
        (λ a. text_eq a.node_id node_id && Items.has a.file_id file_ids)

  unfoldable pub count_attachments_by_file_ids : List Text → Io W (List (Text × ℕ))
  count_attachments_by_file_ids file_ids =
      env.prisma.attachments_group_by_file (λ a. Items.has a.file_id file_ids)

  unfoldable pub mark_files_active : List Text → Io W (Unit {0})
  mark_files_active file_ids = do
    date ← now env
    env.prisma.files_update_many (λ f. Items.has f.file_id file_ids)
        (λ f. record f { status = active; orphaned_at = none; updated_at = date })

  unfoldable pub mark_files_orphan : List Text → Io W (Unit {0})
  mark_files_orphan file_ids = do
    date ← now env
    env.prisma.files_update_many (λ f. Items.has f.file_id file_ids)
        (λ f. record f { status = orphan; orphaned_at = some date; updated_at = date })

  unfoldable pub mark_files_deleted : List Text → Io W (Unit {0})
  mark_files_deleted file_ids = do
    date ← now env
    env.prisma.files_update_many (λ f. Items.has f.file_id file_ids)
        (λ f. record f { status = deleted; updated_at = date })

  unfoldable pub find_stale_files : ℕ → Io W (List (Text × Text))
  unfolding is_stale
  find_stale_files threshold = do
    files ← env.prisma.files_find_many (is_stale threshold)
    pure (map (λ f. (f.file_id, f.s3_key)) files)

  -- The service.
  unfoldable pub extract_referenced_file_ids : Option Content → Text → Io W (List Text)
  extract_referenced_file_ids none workspace_id = pure []
  extract_referenced_file_ids (some content) workspace_id =
      let prefix = get_public_url env.bucket env.region [] in
      let urls = match_urls prefix 0 (env.stringify_content content) in
      if is_empty urls then pure [] else do
        keys ← lift (extract_keys env.bucket env.region urls)
        find_file_ids_by_s3_keys (distinct keys) workspace_id

  unfoldable pub orphan_unreferenced_files : List Text → Io W (Unit {0})
  orphan_unreferenced_files file_ids = do
    remaining_counts ← count_attachments_by_file_ids file_ids
    let orphan_ids = without (Dict.keys remaining_counts) file_ids
    if is_empty orphan_ids then pure tt else mark_files_orphan orphan_ids

  unfoldable pub attach_files : Text → List Text → Io W (Unit {0})
  attach_files node_id to_add =
      if is_empty to_add
      then pure tt
      else do create_attachments node_id to_add; mark_files_active to_add

  unfoldable pub detach_files : Text → List Text → Io W (Unit {0})
  detach_files node_id to_remove =
      if is_empty to_remove
      then pure tt
      else do delete_attachments node_id to_remove; orphan_unreferenced_files to_remove

  unfoldable pub sync_node_attachments : Text → Text → Option Content → Io W (Unit {0})
  sync_node_attachments node_id workspace_id content = do
    referenced_ids ← extract_referenced_file_ids content workspace_id
    current_ids ← find_attached_file_ids_by_node_id node_id
    attach_files node_id (without current_ids referenced_ids)
    detach_files node_id (without referenced_ids current_ids)

  unfoldable pub release_node_attachments : Text → Io W (Unit {0})
  release_node_attachments node_id = do
    file_ids ← find_attached_file_ids_by_node_id node_id
    if is_empty file_ids
        then pure tt
        else do delete_attachments node_id file_ids; orphan_unreferenced_files file_ids
