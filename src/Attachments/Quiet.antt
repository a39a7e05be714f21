-- ===== src/Attachments/Quiet.antt =====
-- src/domain/file-attachment: a sync of attachments keeps what the calls on the two tables keep.
use aideep_websocket.Common.{
  Text, Bool, Option, none, some, List, [], ◌∷◌, Io, pure, lift, >>=-keeps, if-keeps, is_empty,
}
use aideep_websocket.Common.Dict
use aideep_websocket.Env.{Env}
use aideep_websocket.Env.Database.{Content, FileRow, AttachmentRow}
use aideep_websocket.Attachments.{
  without, find_file_ids_by_s3_keys, find_attached_file_ids_by_node_id, create_attachments,
  delete_attachments, count_attachments_by_file_ids, mark_files_active, mark_files_orphan,
  orphan_unreferenced_files, attach_files, detach_files, extract_referenced_file_ids,
  sync_node_attachments,
}
use aideep_websocket.Attachments.Urls.{match_urls, get_public_url, extract_keys, distinct}

-- What a call keeps, whether it succeeds or not.
abbrev pub Keeps : {W A : Type 0} → (W → Type 0) → Io W A → Type 0
Keeps {W} P m = (w : W) → P w → P (m w).1

-- Something of the world that the calls on `files` and `file_attachments` leave alone.
pub record IsQuiet {D E W : Type 0} (env : Env D E W) (P : W → Type 0) : Type 0 where
  pub finds_files : (test : FileRow → Bool) → Keeps P (env.prisma.files_find_many test)
  pub updates_files :
      (test : FileRow → Bool) (change : FileRow → FileRow)
      → Keeps P (env.prisma.files_update_many test change)
  pub finds_attachments :
      (test : AttachmentRow → Bool) → Keeps P (env.prisma.attachments_find_many test)
  pub creates_attachments :
      (rows : List AttachmentRow) → Keeps P (env.prisma.attachments_create_many rows)
  pub deletes_attachments :
      (test : AttachmentRow → Bool) → Keeps P (env.prisma.attachments_delete_many test)
  pub groups_attachments :
      (test : AttachmentRow → Bool) → Keeps P (env.prisma.attachments_group_by_file test)

module _ {D E W : Type 0} (env : Env D E W) {P : W → Type 0} (q : IsQuiet env P) where
  mark_files_orphan-Keeps : (ids : List Text) → Keeps P (mark_files_orphan env ids)
  unfolding mark_files_orphan
  mark_files_orphan-Keeps ids w h = q.updates_files _ _ w h

  mark_files_active-Keeps : (ids : List Text) → Keeps P (mark_files_active env ids)
  unfolding mark_files_active
  mark_files_active-Keeps ids w h = q.updates_files _ _ w h

  orphan_unreferenced_files-Keeps : (ids : List Text) → Keeps P (orphan_unreferenced_files env ids)
  unfolding orphan_unreferenced_files count_attachments_by_file_ids
  orphan_unreferenced_files-Keeps ids w h =
      >>=-keeps P (count_attachments_by_file_ids env ids) _ w (q.groups_attachments _ w h)
        λ counts t k.
          if-keeps (λ (m : Io W (Unit {0})). P (m t).1) (is_empty (without (Dict.keys counts) ids))
            (pure tt) (mark_files_orphan env (without (Dict.keys counts) ids)) k
            (mark_files_orphan-Keeps (without (Dict.keys counts) ids) t k)

  attach_files-Keeps : (node : Text) (ids : List Text) → Keeps P (attach_files env node ids)
  unfolding attach_files create_attachments
  attach_files-Keeps node [] w h = h
  attach_files-Keeps node (x ∷ ids) w h =
      >>=-keeps P (create_attachments env node (x ∷ ids)) _ w (q.creates_attachments _ w h)
        (λ _ t k. mark_files_active-Keeps (x ∷ ids) t k)

  detach_files-Keeps : (node : Text) (ids : List Text) → Keeps P (detach_files env node ids)
  unfolding detach_files delete_attachments
  detach_files-Keeps node [] w h = h
  detach_files-Keeps node (x ∷ ids) w h =
      >>=-keeps P (delete_attachments env node (x ∷ ids)) _ w (q.deletes_attachments _ w h)
        (λ _ t k. orphan_unreferenced_files-Keeps (x ∷ ids) t k)

  find_file_ids-Keeps :
      (keys : List Text) (ws : Text) → Keeps P (find_file_ids_by_s3_keys env keys ws)
  unfolding find_file_ids_by_s3_keys
  find_file_ids-Keeps keys ws w h =
      >>=-keeps P (env.prisma.files_find_many _) _ w (q.finds_files _ w h) (λ _ _ k. k)

  extract-Keeps :
      (content : Option Content) (ws : Text) → Keeps P (extract_referenced_file_ids env content ws)
  unfolding extract_referenced_file_ids
  extract-Keeps none ws w h = h
  extract-Keeps (some content) ws w h =
      let urls =
        match_urls (get_public_url env.bucket env.region []) 0 (env.stringify_content content) in
      if-keeps (λ (m : Io W (List Text)). P (m w).1) (is_empty urls) (pure []) _ h
        (>>=-keeps P (lift (extract_keys env.bucket env.region urls)) _ w h
          (λ keys t k. find_file_ids-Keeps (distinct keys) ws t k))

  pub sync_node_attachments-Keeps :
      (node ws : Text) (content : Option Content)
      → Keeps P (sync_node_attachments env node ws content)
  unfolding sync_node_attachments find_attached_file_ids_by_node_id
  sync_node_attachments-Keeps node ws content w h =
      >>=-keeps P (extract_referenced_file_ids env content ws) _ w (extract-Keeps content ws w h)
        λ ids t k.
          >>=-keeps P (find_attached_file_ids_by_node_id env node) _ t
            (>>=-keeps P (env.prisma.attachments_find_many _) _ t (q.finds_attachments _ t k)
              (λ _ _ l. l))
            λ current u l.
              >>=-keeps P (attach_files env node (without current ids)) _ u
                (attach_files-Keeps node (without current ids) u l)
                (λ _ v m. detach_files-Keeps node (without ids current) v m)
