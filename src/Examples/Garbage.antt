-- ===== src/Examples/Garbage.antt =====
-- A collection of garbage after a sync, with the tables of files and attachments in memory.
use aideep_websocket.Common.{
  ℕ, Text, codes, ◌≡◌, refl, sym, ap, ◌∙◌, Bool, true, false, ◌&&◌, ◌||◌, ◌⊎◌, inl, inr, Bool-cases,
  some, List, [], ◌∷◌, map, ok, text_eq, if◌then◌else◌, arith,
}
use aideep_websocket.Common.Items
use aideep_websocket.Common.Dict
use aideep_websocket.Env.Database.{AttachmentRow, FileRow}
use aideep_websocket.Attachments.{find_stale_files}
use aideep_websocket.Attachments.Tables.{attachment, has_row, has-has_row}
use aideep_websocket.Attachments.Stale.{All, IsFiles, ok_injective}
use aideep_websocket.Attachments.Active.{IsShelf, IsActive}
use aideep_websocket.Attachments.Active.Garbage.{
  Operation, sync, release, run_operations, find_stale_files-run_operations,
}
use aideep_websocket.Examples.World.{node, workspace}
use aideep_websocket.Examples.Files.{
  Shelf, attached, keep, change_where, has_row-keep, tables-IsTables, shelf_env, file,
}
use aideep_websocket.Examples.Opened.{documents}

abbrev IsIn : FileRow → List FileRow → Type 0
IsIn f [] = ⊥
IsIn f (x ∷ xs) = (x ≡ f) ⊎ IsIn f xs

abbrev Row : FileRow → Shelf → Type 0
Row f s = IsIn f s.files

changed :
    (test : FileRow → Bool) (change : FileRow → FileRow) (f : FileRow) (xs : List FileRow)
    → IsIn f (change_where test change xs)
    → (g : FileRow) × IsIn g xs × (f ≡ (if test g then change g else g))
changed test change f [] there = elim there [ ]
changed test change f (x ∷ xs) there = elim there [
  | inl same ↦ (x, inl refl, sym same)
  | inr later ↦ let (g, old, same) = changed test change f xs later in (g, inr old, same)
]

weaker :
    (P Q : FileRow → Type 0) (xs : List FileRow) → ((f : FileRow) → P f → Q f) → All P xs → All Q xs
weaker P Q [] h are = tt
weaker P Q (x ∷ xs) h (p, are) = (h x p, weaker P Q xs h are)

kept :
    (test : FileRow → Bool) (xs : List FileRow)
    → All (λ f. (test f ≡ true) × IsIn f xs) (keep test xs)
kept test [] = tt
kept test (x ∷ xs) =
    let rest =
      weaker _ (λ f. (test f ≡ true) × IsIn f (x ∷ xs)) (keep test xs) (λ f p. (p.0, inr p.1))
        (kept test xs) in
    elim (Bool-cases (test x)) [
      | inl passes ↦ rw passes ((passes, inl refl), rest)
      | inr fails ↦ rw fails rest
    ]

files-IsFiles : IsFiles shelf_env Row
files-IsFiles = record {
  updates = λ test change w w' e f row.
      changed test change f w.files (rw (sym (ap (λ p. p.1.files) e)) at row);
  finds = λ test w w' rows e. rw (sym (ok_injective (ap (λ p. p.0) e))) (kept test w.files);
}

has-groups :
    (f : Text) (rows : List AttachmentRow)
    → Items.has f (Dict.keys {V = ℕ} (map (λ a. (a.file_id, 1)) rows))
      ≡ Items.has f (map (λ a. a.file_id) rows)
unfolding Items.has
has-groups f [] = refl
has-groups f (a ∷ rows) = ap (λ b. text_eq a.file_id f || b) (has-groups f rows)

no_group :
    (n f : Text) (test : AttachmentRow → Bool) (rows : List AttachmentRow)
    → Items.has f (Dict.keys {V = ℕ} (map (λ a. (a.file_id, 1)) (keep test rows))) ≡ false
    → (has_row n f rows && test (attachment n f)) ≡ false
no_group n f test rows absent = elim (Bool-cases (has_row n f (keep test rows))) [
  | inl there ↦ absurd (
      ground (arith, has-has_row n f (keep test rows) there, has-groups f (keep test rows), absent))
  | inr gone ↦ sym (has_row-keep n f test rows) ∙ gone
]

tables-IsShelf : IsShelf shelf_env attached Row
tables-IsShelf = record {
  tables = tables-IsTables;
  files = files-IsFiles;
  old_attachments = λ test w w' rows e f row. rw (sym (ap (λ p. p.1) e)) at row;
  old_creates = λ rows w w' e f row. rw (sym (ap (λ p. p.1.files) e)) at row;
  old_deletes = λ test w w' e f row. rw (sym (ap (λ p. p.1.files) e)) at row;
  old_groups = λ test w w' counts e f row. rw (sym (ap (λ p. p.1) e)) at row;
  old_files = λ test w w' rows e f row. rw (sym (ap (λ p. p.1) e)) at row;
  grouped = λ test w w' counts e n f absent.
      no_group n f test w.attachments
        (ap (Items.has f) (ap Dict.keys (ok_injective (ap (λ p. p.0) e))) ∙ absent);
}

-- No file is attached yet, and the content names "f1".
abbrev shelf : Shelf
shelf = record {
  attachments = [];
  files = file (codes "f0") (codes "k0") ∷ file (codes "f1") (codes "k1") ∷ [];
}

abbrev operations : List Operation
operations = sync node workspace (some []) ∷ release (codes "m") ∷ []

abbrev collected : Shelf
collected = (run_operations shelf_env operations shelf).1

ran : run_operations shelf_env operations shelf ≡ (ok tt, collected)
unfolding documents
ran = refl

nothing_attached : IsActive shelf_env attached Row shelf
unfolding has_row
nothing_attached f n row there = absurd (ground arith)

abbrev stale : List (Text × Text)
stale = (codes "f0", codes "k0") ∷ []

finds : find_stale_files shelf_env 3 collected ≡ (ok stale, collected)
unfolding documents find_stale_files
finds = refl

find_stale_files-run_operations_example :
    All (λ (p : Text × Text). (n : Text) → attached n p.0 collected ≡ false) stale
find_stale_files-run_operations_example =
    find_stale_files-run_operations shelf_env attached Row tables-IsShelf operations 3 shelf
      collected collected stale nothing_attached ran finds
