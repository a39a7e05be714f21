-- ===== src/Yjs/Markdown/Image.antt =====
-- src/global/yjs/markdown-yjs.ts: class ImageNode, which the server registers with Lexical.
use aideep_websocket.Common.{ℕ, Text, codes, ◌≡◌, refl, Option, none, some, []}

-- A node that Lexical has not attached yet has no key.
pub record ImageNode : Type 0 where
  pub src : Text
  pub caption : Text
  pub key : Option Text

-- type SerializedImageNode, with the type and the version of every serialized node
pub record SerializedImageNode : Type 0 where
  pub kind : Text
  pub version : ℕ
  pub src : Text
  pub caption : Option Text

abbrev pub get_type : Text
get_type = codes "image"

-- new ImageNode(src, caption, key)
abbrev pub image_node : Text → Option Text → Option Text → ImageNode
image_node src none key = record { src = src; caption = []; key = key }
image_node src (some caption) key = record { src = src; caption = caption; key = key }

unfoldable pub clone : ImageNode → ImageNode
clone node = image_node node.src (some node.caption) node.key

-- importJSON, where a caption that is missing is the empty text
unfoldable pub import_json : SerializedImageNode → ImageNode
import_json s = elim s.caption [
  | none ↦ image_node s.src (some []) none
  | some caption ↦ image_node s.src (some caption) none
]

unfoldable pub export_json : ImageNode → SerializedImageNode
export_json node = record {
  kind = codes "image";
  version = 1;
  src = node.src;
  caption = some node.caption;
}

-- The keys of a node do not survive a round trip, everything else does.
import_json-export_json :
    (node : ImageNode) → import_json (export_json (clone node)) ≡ record node { key = none }
unfolding import_json export_json clone
import_json-export_json node = refl
