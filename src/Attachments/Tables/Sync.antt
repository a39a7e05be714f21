-- ===== src/Attachments/Tables/Sync.antt =====
-- src/domain/file-attachment/service/file-attachment.service.ts: after a sync or a release, the table
-- holds for the node what its content names, or nothing, and for other nodes what it held.
use aideep_websocket.Common.{
  Text, ◌≡◌, Bool, Bool-cases, not, ◌&&◌, ◌||◌, Option, List, [], ◌∷◌, map, inl, inr, ok, none,
  some, lift, >>=-ok, is_empty, text_eq, text_eq_iff, text_eq_refl, arith, if◌then◌else◌,
}
use aideep_websocket.Common.Dict
use aideep_websocket.Common.Items
use aideep_websocket.Env.{Env}
use aideep_websocket.Env.Database.{AttachmentRow, Content}
use aideep_websocket.Attachments.{
  without, find_attached_file_ids_by_node_id, create_attachments, delete_attachments,
  count_attachments_by_file_ids, mark_files_active, mark_files_orphan, orphan_unreferenced_files,
  attach_files, detach_files, extract_referenced_file_ids, sync_node_attachments,
  release_node_attachments, find_file_ids_by_s3_keys,
}
use aideep_websocket.Attachments.Urls.{match_urls, get_public_url, extract_keys, distinct}
use aideep_websocket.Attachments.Tables.{
  IsTables, attachment, has-without, has_row-map, has-has_row, node_of_has,
}

module _ {D E W : Type 0} (env : Env D E W) (attached : Text → Text → W → Bool)
    (tables : IsTables env.prisma attached) where
  pub has-find_attached :
      (node : Text) (w w' : W) (ids : List Text)
      → find_attached_file_ids_by_node_id env node w ≡ (ok ids, w')
      → (n f : Text) → (Items.has f ids ≡ attached node f w) × (attached n f w' ≡ attached n f w)
  unfolding find_attached_file_ids_by_node_id
  has-find_attached node w w' ids e n f =
      let (rows, w₁, got, rest) =
        >>=-ok (env.prisma.attachments_find_many (λ a. text_eq a.node_id node)) _ w e in
      let table = tables.finds (λ a. text_eq a.node_id node) w w₁ rows got in
      let listed = map (λ a. a.file_id) rows in
      (
        elim (Bool-cases (attached node f w)) [
          | inl there ↦ ground (arith, (table node f).0, has-has_row node f rows, text_eq_refl node)
          | inr none_there ↦ elim (Bool-cases (Items.has f listed)) [
            | inl found ↦
                let (m, row) = node_of_has f rows found in
                ground (arith, (table m f).0, text_eq_iff m node)
            | inr absent ↦ ground arith
          ]
        ],
        ground (arith, (table n f).1),
      )

  attached-attach_files :
      (node : Text) (ids : List Text) (w w' : W)
      → attach_files env node ids w ≡ (ok tt, w')
      → (n f : Text) → attached n f w' ≡ (attached n f w || (text_eq node n && Items.has f ids))
  unfolding attach_files create_attachments mark_files_active Items.has
  attached-attach_files node [] w w' e n f = ground arith
  attached-attach_files node (x ∷ ids) w w' e n f =
      let rows = map (attachment node) (x ∷ ids) in
      let (_, w₁, made, rest) = >>=-ok (env.prisma.attachments_create_many rows) _ w e in
      ground (
        arith,
        tables.creates rows w w₁ made n f,
        tables.updates_files _ _ w₁ w' rest n f,
        has_row-map node n f (x ∷ ids),
      )

  attached-mark_files_orphan :
      (ids : List Text) (w w' : W)
      → mark_files_orphan env ids w ≡ (ok tt, w')
      → (n f : Text) → attached n f w' ≡ attached n f w
  unfolding mark_files_orphan
  attached-mark_files_orphan ids w w' e n f = tables.updates_files _ _ w w' e n f

  attached-orphan_unreferenced_files :
      (ids : List Text) (w w' : W)
      → orphan_unreferenced_files env ids w ≡ (ok tt, w')
      → (n f : Text) → attached n f w' ≡ attached n f w
  unfolding orphan_unreferenced_files count_attachments_by_file_ids
  attached-orphan_unreferenced_files ids w w' e n f =
      let (counts, w₁, counted, rest) =
        >>=-ok (env.prisma.attachments_group_by_file (λ a. Items.has a.file_id ids)) _ w e in
      let same = tables.groups _ w w₁ counts counted n f in
      elim (Bool-cases (is_empty (without (Dict.keys counts) ids))) [
        | inl nothing ↦ ground arith
        | inr some_left ↦ ground (
          arith,
          attached-mark_files_orphan (without (Dict.keys counts) ids) w₁ w' (rw some_left at rest) n
              f,
        )
      ]

  attached-detach_files :
      (node : Text) (ids : List Text) (w w' : W)
      → detach_files env node ids w ≡ (ok tt, w')
      → (n f : Text) → attached n f w' ≡ (attached n f w && not (text_eq n node && Items.has f ids))
  unfolding detach_files delete_attachments Items.has
  attached-detach_files node [] w w' e n f = ground arith
  attached-detach_files node (x ∷ ids) w w' e n f =
      let test = λ (a : AttachmentRow). text_eq a.node_id node && Items.has a.file_id (x ∷ ids) in
      let (_, w₁, gone, rest) = >>=-ok (env.prisma.attachments_delete_many test) _ w e in
      ground (
        arith,
        tables.deletes test w w₁ gone n f,
        attached-orphan_unreferenced_files (x ∷ ids) w₁ w' rest n f,
      )

  attached-find_file_ids :
      (keys : List Text) (ws : Text) (w w' : W) (ids : List Text)
      → find_file_ids_by_s3_keys env keys ws w ≡ (ok ids, w')
      → (n f : Text) → attached n f w' ≡ attached n f w
  unfolding find_file_ids_by_s3_keys
  attached-find_file_ids keys ws w w' ids e n f =
      let (files, w₁, found, rest) = >>=-ok (env.prisma.files_find_many _) _ w e in
      ground (arith, tables.finds_files _ w w₁ files found n f)

  pub attached-extract :
      (content : Option Content) (ws : Text) (w w' : W) (ids : List Text)
      → extract_referenced_file_ids env content ws w ≡ (ok ids, w')
      → (n f : Text) → attached n f w' ≡ attached n f w
  unfolding extract_referenced_file_ids
  attached-extract none ws w w' ids e n f = ground arith
  attached-extract (some content) ws w w' ids e n f =
      let urls =
        match_urls (get_public_url env.bucket env.region []) 0 (env.stringify_content content) in
      elim (Bool-cases (is_empty urls)) [
        | inl nothing ↦ ground arith
        | inr found ↦
            let (keys, w₁, extracted, rest) =
              >>=-ok (lift (extract_keys env.bucket env.region urls)) _ w (rw found at e) in
            ground (arith, attached-find_file_ids (distinct keys) ws w₁ w' ids rest n f)
      ]

  -- Let the calls on the tables do to the rows what their documentation says, and leave the
  -- attachments alone where they are about files. A sync of the attachments of a node that succeeds
  -- has extracted the identifiers of the files that the content names, and then the table holds for
  -- this node these files and no other, and for each other node what it held before.
  pub sync_node_attachments-attached :
      (node ws : Text) (content : Option Content) (w w' : W)
      → sync_node_attachments env node ws content w ≡ (ok tt, w')
      → (ids : List Text) × (w₁ : W) × (extract_referenced_file_ids env content ws w ≡ (ok ids, w₁))
        × ((n f : Text)
            → attached n f w' ≡ (if text_eq n node then Items.has f ids else attached n f w))
  unfolding sync_node_attachments
  sync_node_attachments-attached node ws content w w' e =
      let (ids, w₁, extracted, e₁) = >>=-ok (extract_referenced_file_ids env content ws) _ w e in
      let (current, w₂, looked, e₂) = >>=-ok (find_attached_file_ids_by_node_id env node) _ w₁ e₁ in
      let (_, w₃, added, removed) = >>=-ok (attach_files env node (without current ids)) _ w₂ e₂ in
      (
        ids,
        w₁,
        extracted,
        λ n f. ground (
          arith,
          attached-extract content ws w w₁ ids extracted n f,
          has-find_attached node w₁ w₂ current looked n f,
          attached-attach_files node (without current ids) w₂ w₃ added n f,
          attached-detach_files node (without ids current) w₃ w' removed n f,
          has-without f current ids,
          has-without f ids current,
          text_eq_iff n node,
          text_eq_iff node n,
        ),
      )

  -- Under the same description of the tables, a release of the attachments of a node that succeeds
  -- leaves no attachment of this node, and each other node what it had.
  pub release_node_attachments-attached :
      (node : Text) (w w' : W)
      → release_node_attachments env node w ≡ (ok tt, w')
      → (n f : Text) → attached n f w' ≡ (attached n f w && not (text_eq n node))
  unfolding release_node_attachments detach_files
  release_node_attachments-attached node w w' e n f =
      let (ids, w₁, looked, rest) = >>=-ok (find_attached_file_ids_by_node_id env node) _ w e in
      ground (
        arith,
        has-find_attached node w w₁ ids looked n f,
        attached-detach_files node ids w₁ w' rest n f,
        text_eq_iff n node,
      )
