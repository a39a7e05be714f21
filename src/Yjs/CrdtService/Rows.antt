-- ===== src/Yjs/CrdtService/Rows.antt =====
-- src/global/yjs/yjs-crdt.service.ts: what a save makes of the row of its node.
use aideep_websocket.Common.{
  ℕ, Text, Bytes, ◌+◌, ◌≡◌, ◌≢◌, refl, sym, Option, some, Option-cases, inl, inr, Io, ok, pure,
  catch, >>=-ok, catch-keeps, ◌>>◌, text_eq, text_eq_iff, arith, if◌then◌else◌,
}
use aideep_websocket.Common.Dict
use aideep_websocket.Common.Dict.{get-insert}
use aideep_websocket.Env.{Env}
use aideep_websocket.Env.Database.{NodeRow, NodeUpdate, Persisted, Content, str}
use aideep_websocket.RedisKeys.{workspace_sync}
use aideep_websocket.Attachments.{sync_node_attachments}
use aideep_websocket.Attachments.Quiet.{Keeps, IsQuiet, sync_node_attachments-Keeps}
use aideep_websocket.Yjs.CrdtService.{
  write_node_row, update_node_row, save_to_db, spread, markdown_body, content_or_empty,
}

-- What the documentation of Prisma says of the calls on `nodes` that succeed; `row n w` is the row of
-- the node `n`. A transaction that succeeds has done what its body does. The calls on the other
-- tables and on Redis leave the rows alone.
pub record IsNodeTable {D E W : Type 0} (env : Env D E W) (row : Text → W → Option NodeRow)
    : Type 0 where
  pub finds :
      (n : Text) (w w' : W) (found : Option NodeRow)
      → env.prisma.nodes_find_unique n w ≡ (ok found, w')
      → (found ≡ row n w) × ((m : Text) → row m w' ≡ row m w)
  pub updates :
      (n : Text) (change : NodeRow → NodeRow) (w w' : W) (old new : NodeRow)
      → row n w ≡ some old
      → env.prisma.nodes_update n change w ≡ (ok new, w')
      → (new ≡ change old) × ((m : Text) → row m w' ≡ (if text_eq n m then some new else row m w))
  pub transacts :
      (body : Io W NodeUpdate) (w w' : W) (u : NodeUpdate)
      → env.prisma.transaction body w ≡ (ok u, w')
      → body w ≡ (ok u, w')
  pub quiet : (m : Text) (r : Option NodeRow) → IsQuiet env (λ w. row m w ≡ r)
  pub deletes : (key m : Text) (r : Option NodeRow) → Keeps (λ w. row m w ≡ r) (env.redis.del key)

-- The row after a save: the new state and markdown, the next version, and the other fields of the
-- content as before.
pub record IsRowAfter (old new : NodeRow) (state : Bytes) (markdown : Text) (p : Persisted)
    : Type 0 where
  pub version : new.version ≡ old.version + 1
  pub answered : (p.version ≡ new.version) × (p.updated_at ≡ new.updated_at)
  pub stored : new.yjs_state ≡ some state
  pub written : Dict.get markdown_body (content_or_empty new.content) ≡ some (str markdown)
  pub others :
      (field : Text)
      → field ≢ markdown_body
      → Dict.get field (content_or_empty new.content)
        ≡ Dict.get field (content_or_empty old.content)
  pub unmoved : (new.workspace_id ≡ old.workspace_id) × (new.deleted_at ≡ old.deleted_at)

module _ {D E W : Type 0} (env : Env D E W) (row : Text → W → Option NodeRow)
    (table : IsNodeTable env row) (n : Text) (state : Bytes) (markdown : Text) where
  abbrev changed : NodeRow → ℕ → NodeRow → NodeRow
  changed found date r = record r {
    yjs_state = some state;
    content = some (Dict.insert markdown_body (str markdown) (content_or_empty found.content));
    version = r.version + 1;
    updated_at = date;
  }

  changed-IsRowAfter :
      (old new : NodeRow) (date : ℕ) (p : Persisted)
      → new ≡ changed old date old
      → p ≡ record { version = new.version; updated_at = new.updated_at }
      → IsRowAfter old new state markdown p
  changed-IsRowAfter old new date p e answer =
      let before = content_or_empty old.content in
      record {
        version = ground arith;
        answered = (ground arith, ground arith);
        stored = ground arith;
        written = ground (arith, Dict.get-insert_self markdown_body (str markdown) before);
        others = λ field other. ground (
          arith,
          get-insert markdown_body field (str markdown) before,
          text_eq_iff markdown_body field,
        );
        unmoved = (ground arith, ground arith);
      }

  -- What a save leaves of the rows.
  abbrev pub IsSavedRow : NodeRow → Persisted → W → W → Type 0
  IsSavedRow old p w w' =
      ((new : NodeRow) × (row n w' ≡ some new) × IsRowAfter old new state markdown p)
      × ((m : Text) → m ≢ n → row m w' ≡ row m w)

  write_node_row-IsSavedRow :
      (old : NodeRow) (w w' : W) (u : NodeUpdate)
      → row n w ≡ some old
      → write_node_row env n state markdown (some old) w ≡ (ok u, w')
      → IsSavedRow old u.persisted w w'
  unfolding write_node_row
  write_node_row-IsSavedRow old w w' u found e =
      let (new, w₁, updated, rest) =
        >>=-ok (env.prisma.nodes_update n (changed old (env.date_now w))) _ w e in
      let (made, rows) =
        table.updates n (changed old (env.date_now w)) w w₁ old new found updated in
      (
        (
          new,
          ground (arith, rows n, text_eq_iff n n),
          changed-IsRowAfter old new (env.date_now w) u.persisted made (ground arith),
        ),
        λ m other. ground (arith, rows m, text_eq_iff n m),
      )

  update_node_row-IsSavedRow :
      (w w' : W) (u : NodeUpdate)
      → update_node_row env n state markdown w ≡ (ok u, w')
      → (old : NodeRow) × (row n w ≡ some old) × IsSavedRow old u.persisted w w'
  unfolding update_node_row write_node_row
  update_node_row-IsSavedRow w w' u e =
      let (found, w₁, looked, rest) =
        >>=-ok (env.prisma.nodes_find_unique n) _ w (table.transacts _ w w' u e) in
      let (there, rows) = table.finds n w w₁ found looked in
      elim (Option-cases found) [
        | inl absent ↦ ground arith
        | inr (old, present) ↦
            let ((new, at, after), others) =
              write_node_row-IsSavedRow old w₁ w' u (ground (arith, rows n)) (rw present at rest) in
            (
              old,
              ground arith,
              ((new, at, after), λ m other. ground (arith, others m other, rows m)),
            )
      ]

  -- The sync of the attachments and the notice to the workspace leave every row alone.
  after_row-quiet :
      (ws : Text) (content : Option Content) (p q : Persisted) (m : Text) (w w' : W)
      → (sync_node_attachments env n ws content
            >> (catch (env.redis.del (workspace_sync ws)) (λ _. pure tt) >> pure p))
          w
        ≡ (ok q, w')
      → (q ≡ p) × (row m w' ≡ row m w)
  after_row-quiet ws content p q m w w' e =
      let P = λ (v : W). row m v ≡ row m w in
      let (_, w₁, synced, rest) = >>=-ok (sync_node_attachments env n ws content) _ w e in
      let told = env.redis.del (workspace_sync ws) in
      let kept : row m w₁ ≡ row m w =
        ground
          (arith, sync_node_attachments-Keeps env (table.quiet m (row m w)) n ws content w refl) in
      let (_, w₂, heard, done) = >>=-ok (catch told (λ _. pure tt)) _ w₁ rest in
      (
        ground arith,
        ground (
          arith,
          catch-keeps P told (λ _. pure tt) w₁
              (table.deletes (workspace_sync ws) m (row m w) w₁ kept) (λ _ _ k. k),
        ),
      )

  -- Let the calls on the nodes do to the rows what their documentation says, and leave the rows
  -- alone where they are about other tables or Redis. A save that succeeds has found the row of its
  -- node and leaves it with the next version, the given state, the given markdown as its body and
  -- the other fields of its content, its workspace and its deletion date as they were; it answers
  -- with the version and the date of that row, and it leaves the rows of other nodes alone.
  pub save_to_db-IsSavedRow :
      (ws : Text) (content : Content) (p : Persisted) (w w' : W)
      → save_to_db env n state markdown ws content w ≡ (ok p, w')
      → (old : NodeRow) × (row n w ≡ some old) × IsSavedRow old p w w'
  unfolding save_to_db
  save_to_db-IsSavedRow ws content p w w' e =
      let (u, w₁, updated, rest) = >>=-ok (update_node_row env n state markdown) _ w e in
      let (old, there, ((new, at, after), others)) = update_node_row-IsSavedRow w w₁ u updated in
      let quiet = λ (m : Text).
        after_row-quiet ws (some (spread u.updated_content content)) u.persisted p m w₁ w' rest in
      (
        old,
        there,
        (
          (new, ground (arith, quiet n), rw (sym (quiet n).0) at after),
          λ m other. ground (arith, quiet m, others m other),
        ),
      )
