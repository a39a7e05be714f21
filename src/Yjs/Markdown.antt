-- ===== src/Yjs/Markdown.antt =====
-- src/global/yjs/markdown-yjs.ts: documents to and from markdown, through a headless Lexical editor.
pub mod Trim
pub mod Image
pub mod File
use aideep_websocket.Common.{
  Text, Bytes, codes, [], ◌∷◌, ◌++◌, Result, ok, err, is_empty, ◌&&◌, if◌then◌else◌,
}
use aideep_websocket.Env.{Env}
use aideep_websocket.Env.Database.{Content}
use aideep_websocket.Attachments.Urls.{is_space}

-- text.replace(/\s+$/, '')
unfoldable pub trim_end : Text → Text
trim_end [] = []
trim_end (c ∷ t) = let rest = trim_end t in if is_space c && is_empty rest then [] else c ∷ rest

-- text.trim()
unfoldable pub trim_start : Text → Text
trim_start [] = []
trim_start (c ∷ t) = let rest = trim_start t in if is_space c then rest else c ∷ t

unfoldable pub trim : Text → Text
unfolding trim_start trim_end
trim t = trim_end (trim_start t)

-- The markdown of a document after an append: two line feeds part the old text from the new one.
unfoldable pub next_markdown : Text → Text → Text
unfolding trim_end
next_markdown previous markdown =
    if is_empty previous then markdown else trim_end previous ++ (10 ∷ 10 ∷ markdown)

-- The result of `appendMarkdownToYjsDoc`, with the document that it changed in place.
pub record Appended (D : Type 0) : Type 0 where
  pub doc : D
  pub markdown : Text
  pub update : Bytes

module _ {D E W : Type 0} (env : Env D E W) where
  -- The editor of `createDocBinding`.
  unfoldable pub create_doc_binding : D → Result E
  create_doc_binding doc = env.crdt.sync_children_from_yjs (env.crdt.create_editor doc) doc

  unfoldable pub yjs_doc_to_markdown : D → Result Text
  unfolding create_doc_binding
  yjs_doc_to_markdown doc = elim (create_doc_binding doc) [
    | err e ↦ err e
    | ok editor ↦ ok (env.crdt.convert_to_markdown editor)
  ]

  unfoldable pub yjs_doc_to_attachment_content : D → Result Content
  unfolding create_doc_binding
  yjs_doc_to_attachment_content doc = elim (create_doc_binding doc) [
    | err e ↦ err e
    | ok editor ↦ ok ((codes "editorState", env.editor_to_json editor) ∷ [])
  ]

  unfoldable pub markdown_to_yjs_update : Text → Result Bytes
  markdown_to_yjs_update markdown =
      let doc = env.crdt.new_doc in
      elim (env.crdt.convert_from_markdown (env.crdt.create_editor doc) doc markdown) [
        | err e ↦ err e
        | ok (editor, after) ↦ ok (env.crdt.encode_state_as_update after)
      ]

  unfoldable pub append_markdown_to_yjs_doc : D → Text → Result (Appended D)
  unfolding yjs_doc_to_markdown create_doc_binding
  append_markdown_to_yjs_doc doc markdown = elim (yjs_doc_to_markdown doc) [
    | err e ↦ err e
    | ok previous ↦ elim (create_doc_binding doc) [
      | err e ↦ err e
      | ok editor ↦
          elim (env.crdt.convert_from_markdown editor doc (next_markdown previous markdown)) [
            | err e ↦ err e
            | ok (editor', after) ↦ ok (record {
              doc = after;
              markdown = env.crdt.convert_to_markdown editor';
              update =
                  env.crdt.encode_state_as_update_since after (env.crdt.encode_state_vector doc);
            })
          ]
    ]
  ]
