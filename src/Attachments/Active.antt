-- ===== src/Attachments/Active.antt =====
-- src/domain/file-attachment: the status of the files that are attached to a node.
pub mod Garbage
use aideep_websocket.Common.{
  ℕ, Text, ◌≡◌, ◌≢◌, refl, sym, ap, ◌∙◌, Bool, true, false, not, ◌&&◌, ◌||◌, Bool-cases, inl, inr,
  Option, none, some, List, [], ◌∷◌, map, ok, Io, pure, lift, ◌>>=◌, ◌>>◌, >>=-ok, is_empty,
  text_eq, arith, if◌then◌else◌,
}
use aideep_websocket.Common.Dict
use aideep_websocket.Common.Items
use aideep_websocket.Env.{Env}
use aideep_websocket.Env.Database.{
  FileRow, AttachmentRow, Content, active, orphan, pending, deleted,
}
use aideep_websocket.Attachments.{
  without, attach_files, detach_files, create_attachments, delete_attachments, mark_files_active,
  mark_files_orphan, orphan_unreferenced_files, count_attachments_by_file_ids,
  find_attached_file_ids_by_node_id, find_file_ids_by_s3_keys, extract_referenced_file_ids,
  sync_node_attachments, release_node_attachments, find_stale_files, is_stale,
}
use aideep_websocket.Attachments.Urls.{match_urls, get_public_url, extract_keys, distinct}
use aideep_websocket.Attachments.Tables.{IsTables, attachment, has-without, has_row-map}
use aideep_websocket.Attachments.Tables.Sync.{has-find_attached, attached-extract}
use aideep_websocket.Attachments.Stale.{All, IsFiles}

module _ {D E W : Type 0} (env : Env D E W) (attached : Text → Text → W → Bool)
    (Row : FileRow → W → Type 0) where
  -- No row of the table of files is new.
  abbrev pub IsOld : W → W → Type 0
  IsOld w w' = (f : FileRow) → Row f w' → Row f w

  -- What the documentation of Prisma says of the two tables together.
  pub record IsShelf : Type 0 where
    pub tables : IsTables env.prisma attached
    pub files : IsFiles env Row
    pub old_attachments :
        (test : AttachmentRow → Bool) (w w' : W) (rows : List AttachmentRow)
        → env.prisma.attachments_find_many test w ≡ (ok rows, w')
        → IsOld w w'
    pub old_creates :
        (rows : List AttachmentRow) (w w' : W)
        → env.prisma.attachments_create_many rows w ≡ (ok tt, w')
        → IsOld w w'
    pub old_deletes :
        (test : AttachmentRow → Bool) (w w' : W)
        → env.prisma.attachments_delete_many test w ≡ (ok tt, w')
        → IsOld w w'
    pub old_groups :
        (test : AttachmentRow → Bool) (w w' : W) (counts : List (Text × ℕ))
        → env.prisma.attachments_group_by_file test w ≡ (ok counts, w')
        → IsOld w w'
    pub old_files :
        (test : FileRow → Bool) (w w' : W) (rows : List FileRow)
        → env.prisma.files_find_many test w ≡ (ok rows, w')
        → IsOld w w'
    -- Each file of a row that passes the test has a group.
    pub grouped :
        (test : AttachmentRow → Bool) (w w' : W) (counts : List (Text × ℕ))
        → env.prisma.attachments_group_by_file test w ≡ (ok counts, w')
        → (n f : Text) → Items.has f (Dict.keys counts) ≡ false
        → (attached n f w && test (attachment n f)) ≡ false

  -- A file that is attached to a node is active.
  abbrev pub IsActive : W → Type 0
  IsActive w =
      (f : FileRow) (n : Text) → Row f w → attached n f.file_id w ≡ true → f.status ≡ active

  module _ (shelf : IsShelf) where
    -- Fewer attachments and no new row.
    pub fewer-IsActive :
        (w w' : W)
        → ((n f : Text) → attached n f w' ≡ true → attached n f w ≡ true)
        → IsOld w w'
        → IsActive w
        → IsActive w'
    fewer-IsActive w w' fewer old h f n row there = h f n (old f row) (fewer n f.file_id there)

    -- A row that an update has changed or not.
    same_id :
        (b : Bool) (f g changed : FileRow)
        → f ≡ (if b then changed else g)
        → changed.file_id ≡ g.file_id
        → f.file_id ≡ g.file_id
    same_id true f g changed same k = ap (λ (x : FileRow). x.file_id) same ∙ k
    same_id false f g changed same k = ap (λ (x : FileRow). x.file_id) same

    active_either :
        (b : Bool) (f g changed : FileRow)
        → f ≡ (if b then changed else g)
        → (b ≡ true → changed.status ≡ active)
        → (b ≡ false → g.status ≡ active)
        → f.status ≡ active
    active_either true f g changed same k l = ap (λ (x : FileRow). x.status) same ∙ k refl
    active_either false f g changed same k l = ap (λ (x : FileRow). x.status) same ∙ l refl

    -- The files of the list become active, and no other attachment is new.
    mark_files_active-IsActive :
        (ids : List Text) (w w₁ w' : W)
        → ((n f : Text) → attached n f w₁ ≡ true → Items.has f ids ≡ false → attached n f w ≡ true)
        → IsOld w w₁
        → mark_files_active env ids w₁ ≡ (ok tt, w')
        → IsActive w
        → IsActive w'
    unfolding mark_files_active
    mark_files_active-IsActive ids w w₁ w' before old marked h f n row there =
        let (g, was, same) = shelf.files.updates _ _ w₁ w' marked f row in
        let id = same_id _ f g _ same refl in
        let there₁ = sym (shelf.tables.updates_files _ _ w₁ w' marked n f.file_id) ∙ there in
        active_either (Items.has g.file_id ids) f g _ same (λ _. refl)
          (λ other. h g n (old g was) (before n g.file_id (rw id at there₁) other))

    mark_files_orphan-IsActive :
        (ids : List Text) (w w' : W)
        → ((n f : Text) → Items.has f ids ≡ true → attached n f w ≡ false)
        → mark_files_orphan env ids w ≡ (ok tt, w')
        → IsActive w
        → IsActive w'
    unfolding mark_files_orphan
    mark_files_orphan-IsActive ids w w' unused e h f n row there =
        let (g, was, same) = shelf.files.updates _ _ w w' e f row in
        let id = same_id _ f g _ same refl in
        let there₁ = rw id at (sym (shelf.tables.updates_files _ _ w w' e n f.file_id) ∙ there) in
        active_either (Items.has g.file_id ids) f g _ same
          (λ named. absurd (ground (arith, unused n g.file_id named))) (λ other. h g n was there₁)

    pub attach_files-IsActive :
        (node : Text) (ids : List Text) (w w' : W)
        → attach_files env node ids w ≡ (ok tt, w')
        → IsActive w
        → IsActive w'
    unfolding attach_files create_attachments
    attach_files-IsActive node [] w w' e h = rw (sym (ap (λ p. p.1) e)) h
    attach_files-IsActive node (x ∷ ids) w w' e h =
        let rows = map (attachment node) (x ∷ ids) in
        let (_, w₁, made, marked) = >>=-ok (env.prisma.attachments_create_many rows) _ w e in
        mark_files_active-IsActive (x ∷ ids) w w₁ w'
          (λ n f there other.
            ground (arith, shelf.tables.creates rows w w₁ made n f, has_row-map node n f (x ∷ ids)))
          (shelf.old_creates _ w w₁ made) marked h

    orphan_unreferenced_files-IsActive :
        (ids : List Text) (w w' : W)
        → orphan_unreferenced_files env ids w ≡ (ok tt, w')
        → IsActive w
        → IsActive w'
    unfolding orphan_unreferenced_files count_attachments_by_file_ids
    orphan_unreferenced_files-IsActive ids w w' e h =
        let test = λ (a : AttachmentRow). Items.has a.file_id ids in
        let (counts, w₁, counted, rest) =
          >>=-ok (env.prisma.attachments_group_by_file test) _ w e in
        let h₁ =
          fewer-IsActive w w₁
            (λ n f there. sym (shelf.tables.groups test w w₁ counts counted n f) ∙ there)
            (shelf.old_groups test w w₁ counts counted) h in
        elim (Bool-cases (is_empty (without (Dict.keys counts) ids))) [
          | inl nothing ↦ rw (sym (ap (λ p. p.1) (rw nothing at rest))) h₁
          | inr left ↦
              mark_files_orphan-IsActive (without (Dict.keys counts) ids) w₁ w'
                (λ n f named. ground (
                  arith,
                  has-without f (Dict.keys counts) ids,
                  shelf.grouped test w w₁ counts counted n f,
                  shelf.tables.groups test w w₁ counts counted n f,
                ))
                (rw left at rest) h₁
        ]

    pub detach_files-IsActive :
        (node : Text) (ids : List Text) (w w' : W)
        → detach_files env node ids w ≡ (ok tt, w')
        → IsActive w
        → IsActive w'
    unfolding detach_files delete_attachments
    detach_files-IsActive node [] w w' e h = rw (sym (ap (λ p. p.1) e)) h
    detach_files-IsActive node (x ∷ ids) w w' e h =
        let test = λ (a : AttachmentRow). text_eq a.node_id node && Items.has a.file_id (x ∷ ids) in
        let (_, w₁, gone, rest) = >>=-ok (env.prisma.attachments_delete_many test) _ w e in
        orphan_unreferenced_files-IsActive (x ∷ ids) w₁ w' rest (
          fewer-IsActive w w₁ (λ n f there. ground (arith, shelf.tables.deletes test w w₁ gone n f))
            (shelf.old_deletes test w w₁ gone) h)
