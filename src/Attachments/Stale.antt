-- ===== src/Attachments/Stale.antt =====
-- src/domain/file-attachment/repository: the files that a collection of garbage would find.
use aideep_websocket.Common.{
  ℕ, Text, ◌≡◌, refl, sym, ap, ◌∙◌, ◌≤◌, Bool, true, false, none, some, List, [], ◌∷◌, map, ok, Io,
  >>=-ok, arith, if◌then◌else◌,
}
use aideep_websocket.Common.Items.{has}
use aideep_websocket.Env.{Env}
use aideep_websocket.Env.Database.{FileRow, active, orphan, deleted}
use aideep_websocket.Attachments.{
  is_stale, find_stale_files, mark_files_active, mark_files_orphan, mark_files_deleted,
}

abbrev pub All : {A : Type 0} → (A → Type 0) → List A → Type 0
All P [] = Unit
All P (x ∷ xs) = P x × All P xs

pub ok_injective : {A : Type 0} {a b : A} → ok a ≡ ok b → a ≡ b
ok_injective h = ground arith

module _ {D E W : Type 0} (env : Env D E W) where
  -- What the documentation of Prisma says of the calls on `files`. `Row f w` says that the table
  -- has this row.
  pub record IsFiles (Row : FileRow → W → Type 0) : Type 0 where
    pub updates :
        (test : FileRow → Bool) (change : FileRow → FileRow) (w w' : W)
        → env.prisma.files_update_many test change w ≡ (ok tt, w')
        → (f : FileRow) → Row f w'
        → (g : FileRow) × Row g w × (f ≡ (if test g then change g else g))
    pub finds :
        (test : FileRow → Bool) (w w' : W) (files : List FileRow)
        → env.prisma.files_find_many test w ≡ (ok files, w')
        → All (λ f. (test f ≡ true) × Row f w) files

  -- The three calls that mark files, at the time of a world.
  pub data Mark : Type 0 where
    as_active as_orphan as_deleted : Mark

  abbrev pub mark_files : Mark → List Text → Io W (Unit {0})
  unfolding mark_files_active mark_files_orphan mark_files_deleted
  mark_files as_active = mark_files_active env
  mark_files as_orphan = mark_files_orphan env
  mark_files as_deleted = mark_files_deleted env

  change_of : Mark → ℕ → FileRow → FileRow
  change_of as_active date f = record f { status = active; orphaned_at = none; updated_at = date }
  change_of as_orphan date f = record f {
    status = orphan;
    orphaned_at = some date;
    updated_at = date;
  }
  change_of as_deleted date f = record f { status = deleted; updated_at = date }

  -- A file that has just been marked is not stale.
  is_stale-change_of :
      (mark : Mark) (date threshold : ℕ) (f : FileRow)
      → threshold ≤ date
      → is_stale threshold (change_of mark date f) ≡ false
  unfolding is_stale change_of
  is_stale-change_of as_active date threshold f h = ground arith
  is_stale-change_of as_orphan date threshold f h = ground arith
  is_stale-change_of as_deleted date threshold f h = ground arith

  file_id-change_of :
      (mark : Mark) (date : ℕ) (f : FileRow) → (change_of mark date f).file_id ≡ f.file_id
  unfolding change_of
  file_id-change_of as_active date f = refl
  file_id-change_of as_orphan date f = refl
  file_id-change_of as_deleted date f = refl

  mark_files_change :
      (mark : Mark) (ids : List Text) (w : W)
      → mark_files mark ids w
        ≡ env.prisma.files_update_many (λ f. has f.file_id ids) (change_of mark (env.date_now w)) w
  unfolding mark_files mark_files_active mark_files_orphan mark_files_deleted change_of
  mark_files_change as_active ids w = refl
  mark_files_change as_orphan ids w = refl
  mark_files_change as_deleted ids w = refl

  module _ (Row : FileRow → W → Type 0) (laws : IsFiles Row) (mark : Mark) (ids : List Text) where
    kept :
        (b : Bool) (date threshold : ℕ) (f g : FileRow)
        → has g.file_id ids ≡ b
        → threshold ≤ date
        → f ≡ (if b then change_of mark date g else g)
        → is_stale threshold f ≡ true
        → has f.file_id ids ≡ false
    kept true date threshold f g named h same stale = absurd (
        ground
          (arith, stale, ap (is_stale threshold) same, is_stale-change_of mark date threshold g h))
    kept false date threshold f g named h same stale =
        ap (λ (x : FileRow). has x.file_id ids) same ∙ named

    unmarked :
        (threshold : ℕ) (w w' : W) (f : FileRow)
        → threshold ≤ env.date_now w
        → mark_files mark ids w ≡ (ok tt, w')
        → is_stale threshold f ≡ true
        → Row f w'
        → has f.file_id ids ≡ false
    unmarked threshold w w' f h marked stale row =
        let (g, old, same) =
          laws.updates _ (change_of mark (env.date_now w)) w w'
            (sym (mark_files_change mark ids w) ∙ marked) f row in
        kept (has g.file_id ids) (env.date_now w) threshold f g refl h same stale

    select_unmarked :
        (threshold : ℕ) (w' : W) (files : List FileRow)
        → ((f : FileRow) → is_stale threshold f ≡ true → Row f w' → has f.file_id ids ≡ false)
        → All (λ f. (is_stale threshold f ≡ true) × Row f w') files
        → All (λ (p : Text × Text). has p.0 ids ≡ false) (map (λ f. (f.file_id, f.s3_key)) files)
    select_unmarked threshold w' [] unmarked are = tt
    select_unmarked threshold w' (f ∷ files) unmarked ((stale, row), are) =
        (unmarked f stale row, select_unmarked threshold w' files unmarked are)

    -- x
    pub find_stale_files-mark_files :
        (threshold : ℕ) (w w' w'' : W) (stale : List (Text × Text))
        → threshold ≤ env.date_now w
        → mark_files mark ids w ≡ (ok tt, w')
        → find_stale_files env threshold w' ≡ (ok stale, w'')
        → All (λ (p : Text × Text). has p.0 ids ≡ false) stale
    unfolding find_stale_files
    find_stale_files-mark_files threshold w w' w'' stale h marked found =
        let (files, mid, got, selected) = >>=-ok (env.prisma.files_find_many _) _ w' found in
        rw (sym (ok_injective (ap (λ p. p.0) selected))) (
          select_unmarked threshold w' files (λ f. unmarked threshold w w' f h marked)
            (laws.finds _ w' mid files got))
