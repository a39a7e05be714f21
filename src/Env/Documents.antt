-- ===== src/Env/Documents.antt =====
-- Yjs documents, the Lexical editor bound to one, and the sync protocol of y-protocols.
use aideep_websocket.Common.{Text, Bytes, ℕ, Result}

-- What `readSyncMessage` does to a document: the type of the message, the bytes that it wrote for
-- the sender, and the document after it.
pub record SyncReply (D : Type 0) : Type 0 where
  pub message_type : ℕ
  pub reply : Bytes
  pub doc : D

pub record Crdt (D E : Type 0) : Type 0 where
  -- new Y.Doc()
  pub new_doc : D
  -- Y.applyUpdate(doc, update), which throws on bytes that are no update
  pub apply_update : D → Bytes → Result D
  -- doc.get('root', Y.XmlText), which defines the root type
  pub get_root : D → D
  -- doc.get('root', Y.XmlText).toString()
  pub root_text : D → Text
  -- Y.encodeStateAsUpdate(doc), Y.encodeStateAsUpdate(doc, stateVector), Y.encodeStateVector(doc)
  pub encode_state_as_update : D → Bytes
  pub encode_state_as_update_since : D → Bytes → Bytes
  pub encode_state_vector : D → Bytes
  -- createHeadlessEditor and createBinding for an editor of a document
  pub create_editor : D → E
  -- the editor after applyChildrenYjsDelta and syncChildrenFromYjs
  pub sync_children_from_yjs : E → D → Result E
  -- $convertFromMarkdownString under a listener that syncs the change to the document
  pub convert_from_markdown : E → D → Text → Result (E × D)
  -- $convertToMarkdownString of the editor's state
  pub convert_to_markdown : E → Text
  -- syncProtocol.readSyncMessage, which throws on malformed bytes
  pub read_sync_message : D → Bytes → Result (SyncReply D)
  -- the bytes of syncProtocol.writeSyncStep1 and writeUpdate
  pub write_sync_step1 : D → Bytes
  pub write_update : Bytes → Bytes
