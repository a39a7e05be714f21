-- ===== src/Attachments/Active/Garbage.antt =====
-- src/domain/file-attachment: what the collection of garbage finds after syncs and releases.
use aideep_websocket.Common.{
  ℕ, Text, ◌≡◌, sym, ap, ◌∙◌, Bool, true, false, Bool-cases, inl, inr, Option, none, some, List, [],
  ◌∷◌, map, ok, Io, pure, lift, ◌>>◌, >>=-ok, is_empty, arith,
}
use aideep_websocket.Env.{Env}
use aideep_websocket.Env.Database.{FileRow, Content, active}
use aideep_websocket.Attachments.{
  without, attach_files, detach_files, find_attached_file_ids_by_node_id, find_file_ids_by_s3_keys,
  extract_referenced_file_ids, sync_node_attachments, release_node_attachments, find_stale_files,
  is_stale,
}
use aideep_websocket.Attachments.Urls.{match_urls, get_public_url, extract_keys, distinct}
use aideep_websocket.Attachments.Tables.Sync.{has-find_attached, attached-extract}
use aideep_websocket.Attachments.Stale.{All, ok_injective}
use aideep_websocket.Attachments.Active.{
  IsOld, IsShelf, IsActive, fewer-IsActive, attach_files-IsActive, detach_files-IsActive,
}

-- The two operations of the service on a node.
pub data Operation : Type 0 where
  sync : Text → Text → Option Content → Operation
  release : Text → Operation

module _ {D E W : Type 0} (env : Env D E W) where
  abbrev pub run_operations : List Operation → Io W (Unit {0})
  unfolding sync_node_attachments release_node_attachments
  run_operations [] = pure tt
  run_operations (sync node_id workspace_id content ∷ operations) =
      sync_node_attachments env node_id workspace_id content >> run_operations operations
  run_operations (release node_id ∷ operations) =
      release_node_attachments env node_id >> run_operations operations

  module _ (attached : Text → Text → W → Bool) (Row : FileRow → W → Type 0)
      (shelf : IsShelf env attached Row) where
    find_attached-IsOld :
        (node : Text) (w w' : W) (ids : List Text)
        → find_attached_file_ids_by_node_id env node w ≡ (ok ids, w')
        → IsOld env attached Row w w'
    unfolding find_attached_file_ids_by_node_id
    find_attached-IsOld node w w' ids e f row =
        let (rows, w₁, got, rest) = >>=-ok (env.prisma.attachments_find_many _) _ w e in
        shelf.old_attachments _ w w₁ rows got f (rw (sym (ap (λ p. p.1) rest)) at row)

    find_file_ids-IsOld :
        (keys : List Text) (ws : Text) (w w' : W) (ids : List Text)
        → find_file_ids_by_s3_keys env keys ws w ≡ (ok ids, w')
        → IsOld env attached Row w w'
    unfolding find_file_ids_by_s3_keys
    find_file_ids-IsOld keys ws w w' ids e f row =
        let (files, w₁, got, rest) = >>=-ok (env.prisma.files_find_many _) _ w e in
        shelf.old_files _ w w₁ files got f (rw (sym (ap (λ p. p.1) rest)) at row)

    extract-IsOld :
        (content : Option Content) (ws : Text) (w w' : W) (ids : List Text)
        → extract_referenced_file_ids env content ws w ≡ (ok ids, w')
        → IsOld env attached Row w w'
    unfolding extract_referenced_file_ids
    extract-IsOld none ws w w' ids e f row = rw (sym (ap (λ p. p.1) e)) at row
    extract-IsOld (some content) ws w w' ids e f row =
        let urls =
          match_urls (get_public_url env.bucket env.region []) 0 (env.stringify_content content) in
        elim (Bool-cases (is_empty urls)) [
          | inl nothing ↦ rw (sym (ap (λ p. p.1) (rw nothing at e))) at row
          | inr found ↦
              let (keys, w₁, extracted, rest) =
                >>=-ok (lift (extract_keys env.bucket env.region urls)) _ w (rw found at e) in
              rw (sym (ap (λ p. p.1) extracted)) at
                (find_file_ids-IsOld (distinct keys) ws w₁ w' ids rest f row)
        ]

    sync_node_attachments-IsActive :
        (node ws : Text) (content : Option Content) (w w' : W)
        → sync_node_attachments env node ws content w ≡ (ok tt, w')
        → IsActive env attached Row w
        → IsActive env attached Row w'
    unfolding sync_node_attachments
    sync_node_attachments-IsActive node ws content w w' e h =
        let (ids, w₁, extracted, e₁) = >>=-ok (extract_referenced_file_ids env content ws) _ w e in
        let (current, w₂, looked, e₂) =
          >>=-ok (find_attached_file_ids_by_node_id env node) _ w₁ e₁ in
        let (_, w₃, added, removed) =
          >>=-ok (attach_files env node (without current ids)) _ w₂ e₂ in
        let h₁ =
          fewer-IsActive env attached Row shelf w w₁
            (λ n f there.
              sym (attached-extract env attached shelf.tables content ws w w₁ ids extracted n f)
              ∙ there)
            (extract-IsOld content ws w w₁ ids extracted) h in
        let h₂ =
          fewer-IsActive env attached Row shelf w₁ w₂
            (λ n f there.
              sym (has-find_attached env attached shelf.tables node w₁ w₂ current looked n f).1
              ∙ there)
            (find_attached-IsOld node w₁ w₂ current looked) h₁ in
        detach_files-IsActive env attached Row shelf node _ w₃ w' removed
          (attach_files-IsActive env attached Row shelf node _ w₂ w₃ added h₂)

    release_node_attachments-IsActive :
        (node : Text) (w w' : W)
        → release_node_attachments env node w ≡ (ok tt, w')
        → IsActive env attached Row w
        → IsActive env attached Row w'
    unfolding release_node_attachments detach_files
    release_node_attachments-IsActive node w w' e h =
        let (ids, w₁, looked, rest) = >>=-ok (find_attached_file_ids_by_node_id env node) _ w e in
        detach_files-IsActive env attached Row shelf node ids w₁ w' rest (
          fewer-IsActive env attached Row shelf w w₁
            (λ n f there.
              sym (has-find_attached env attached shelf.tables node w w₁ ids looked n f).1 ∙ there)
            (find_attached-IsOld node w w₁ ids looked) h)

    run_operations-IsActive :
        (operations : List Operation) (w w' : W)
        → run_operations operations w ≡ (ok tt, w')
        → IsActive env attached Row w
        → IsActive env attached Row w'
    unfolding run_operations
    run_operations-IsActive [] w w' e h = rw (sym (ap (λ p. p.1) e)) h
    run_operations-IsActive (sync node ws content ∷ operations) w w' e h =
        let (_, w₁, first, rest) = >>=-ok (sync_node_attachments env node ws content) _ w e in
        run_operations-IsActive operations w₁ w' rest
          (sync_node_attachments-IsActive node ws content w w₁ first h)
    run_operations-IsActive (release node ∷ operations) w w' e h =
        let (_, w₁, first, rest) = >>=-ok (release_node_attachments env node) _ w e in
        run_operations-IsActive operations w₁ w' rest
          (release_node_attachments-IsActive node w w₁ first h)

    is_stale-active :
        (threshold : ℕ) (f : FileRow) → f.status ≡ active → is_stale threshold f ≡ false
    unfolding is_stale
    is_stale-active threshold f h = ground arith

    select_unattached :
        (threshold : ℕ) (w : W) (files : List FileRow)
        → IsActive env attached Row w
        → All (λ f. (is_stale threshold f ≡ true) × Row f w) files
        → All
            (λ (p : Text × Text). (n : Text) → attached n p.0 w ≡ false)
            (map (λ f. (f.file_id, f.s3_key)) files)
    select_unattached threshold w [] h are = tt
    select_unattached threshold w (f ∷ files) h ((stale, row), are) = (
      λ n. elim (Bool-cases (attached n f.file_id w)) [
        | inl there ↦ absurd (ground (arith, stale, is_stale-active threshold f (h f n row there)))
        | inr free ↦ free
      ],
      select_unattached threshold w files h are,
    )

    -- Let the calls on the tables of files and attachments do to the rows what their documentation
    -- says. If every file that is attached to a node is active, then after syncs and releases of
    -- nodes, in any order, that all succeed, no file that findStaleFiles names is attached to any
    -- node.
    pub find_stale_files-run_operations :
        (operations : List Operation) (threshold : ℕ) (w w' w'' : W) (stale : List (Text × Text))
        → IsActive env attached Row w
        → run_operations operations w ≡ (ok tt, w')
        → find_stale_files env threshold w' ≡ (ok stale, w'')
        → All (λ (p : Text × Text). (n : Text) → attached n p.0 w' ≡ false) stale
    unfolding find_stale_files
    find_stale_files-run_operations operations threshold w w' w'' stale h ran found =
        let (files, mid, got, selected) = >>=-ok (env.prisma.files_find_many _) _ w' found in
        rw (sym (ok_injective (ap (λ p. p.0) selected))) (
          select_unattached threshold w' files (run_operations-IsActive operations w w' ran h)
            (shelf.files.finds _ w' mid files got))
