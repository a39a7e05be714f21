-- ===== src/Attachments/Tables.antt =====
-- src/domain/file-attachment: what the service makes of the table `file_attachments`.
pub mod Sync
use aideep_websocket.Common.{
  Text, ℕ, ◌≡◌, refl, Bool, true, false, not, ◌&&◌, ◌||◌, List, [], ◌∷◌, map, ok, arith, text_eq,
  text_eq_iff, text_eq_refl, Bool-cases, inl, inr,
}
use aideep_websocket.Common.Items
use aideep_websocket.Env.Database.{Prisma, AttachmentRow, FileRow}
use aideep_websocket.Attachments.{without}

abbrev pub attachment : Text → Text → AttachmentRow
attachment node_id file_id = record { file_id = file_id; node_id = node_id }

unfoldable pub has_row : Text → Text → List AttachmentRow → Bool
has_row n f [] = false
has_row n f (a ∷ rows) = (text_eq a.node_id n && text_eq a.file_id f) || has_row n f rows

-- What the documentation of Prisma says of the calls that succeed; `attached n f w` is whether the
-- table has a row for the node `n` and the file `f`. The calls on `files` leave the table alone.
pub record IsTables {W : Type 0} (prisma : Prisma W) (attached : Text → Text → W → Bool)
    : Type 0 where
  pub finds :
      (test : AttachmentRow → Bool) (w w' : W) (rows : List AttachmentRow)
      → prisma.attachments_find_many test w ≡ (ok rows, w')
      → (n f : Text)
      → (has_row n f rows ≡ (attached n f w && test (attachment n f)))
        × (attached n f w' ≡ attached n f w)
  pub creates :
      (rows : List AttachmentRow) (w w' : W)
      → prisma.attachments_create_many rows w ≡ (ok tt, w')
      → (n f : Text) → attached n f w' ≡ (attached n f w || has_row n f rows)
  pub deletes :
      (test : AttachmentRow → Bool) (w w' : W)
      → prisma.attachments_delete_many test w ≡ (ok tt, w')
      → (n f : Text) → attached n f w' ≡ (attached n f w && not (test (attachment n f)))
  pub groups :
      (test : AttachmentRow → Bool) (w w' : W) (counts : List (Text × ℕ))
      → prisma.attachments_group_by_file test w ≡ (ok counts, w')
      → (n f : Text) → attached n f w' ≡ attached n f w
  pub finds_files :
      (test : FileRow → Bool) (w w' : W) (files : List FileRow)
      → prisma.files_find_many test w ≡ (ok files, w')
      → (n f : Text) → attached n f w' ≡ attached n f w
  pub updates_files :
      (test : FileRow → Bool) (change : FileRow → FileRow) (w w' : W)
      → prisma.files_update_many test change w ≡ (ok tt, w')
      → (n f : Text) → attached n f w' ≡ attached n f w

pub has-without :
    (f : Text) (seen xs : List Text)
    → Items.has f (without seen xs) ≡ (Items.has f xs && not (Items.has f seen))
unfolding Items.has without
has-without f seen [] = refl
has-without f seen (x ∷ xs) = ground (arith, has-without f seen xs, text_eq_iff x f)

pub has_row-map :
    (node n f : Text) (ids : List Text)
    → has_row n f (map (attachment node) ids) ≡ (text_eq node n && Items.has f ids)
unfolding Items.has has_row
has_row-map node n f [] = ground arith
has_row-map node n f (x ∷ ids) = ground (arith, has_row-map node n f ids)

pub has-has_row :
    (n f : Text) (rows : List AttachmentRow)
    → has_row n f rows ≡ true
    → Items.has f (map (λ a. a.file_id) rows) ≡ true
unfolding Items.has has_row
has-has_row n f [] there = ground arith
has-has_row n f (a ∷ rows) there = ground (arith, has-has_row n f rows)

pub node_of_has :
    (f : Text) (rows : List AttachmentRow)
    → Items.has f (map (λ a. a.file_id) rows) ≡ true
    → (n : Text) × (has_row n f rows ≡ true)
unfolding Items.has has_row
node_of_has f [] there = ground arith
node_of_has f (a ∷ rows) there = elim (Bool-cases (text_eq a.file_id f)) [
  | inl same ↦ (a.node_id, ground (arith, text_eq_refl a.node_id))
  | inr other ↦ let (n, found) = node_of_has f rows (ground arith) in (n, ground arith)
]
