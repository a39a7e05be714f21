-- ===== src/Yjs/Markdown/File.antt =====
-- src/global/yjs/markdown-yjs.ts: class FileNode, which the server registers with Lexical.
use aideep_websocket.Common.{ℕ, Text, codes, ◌≡◌, refl, Option, none, some, []}

-- A node that Lexical has not attached yet has no key.
pub record FileNode : Type 0 where
  pub name : Text
  pub size : ℕ
  pub data_url : Text
  pub key : Option Text

-- type SerializedFileNode, with the type and the version of every serialized node
pub record SerializedFileNode : Type 0 where
  pub kind : Text
  pub version : ℕ
  pub name : Text
  pub size : ℕ
  pub data_url : Option Text

abbrev pub get_type : Text
get_type = codes "file"

-- new FileNode(name, size, dataUrl, key)
abbrev pub file_node : Text → ℕ → Text → Option Text → FileNode
file_node name size data_url key = record {
  name = name;
  size = size;
  data_url = data_url;
  key = key;
}

unfoldable pub clone : FileNode → FileNode
clone node = file_node node.name node.size node.data_url node.key

-- importJSON, where an address that is missing is the empty text
unfoldable pub import_json : SerializedFileNode → FileNode
import_json s = elim s.data_url [
  | none ↦ file_node s.name s.size [] none
  | some data_url ↦ file_node s.name s.size data_url none
]

unfoldable pub export_json : FileNode → SerializedFileNode
export_json node = record {
  kind = codes "file";
  version = 1;
  name = node.name;
  size = node.size;
  data_url = some node.data_url;
}

-- The keys of a node do not survive a round trip, everything else does.
import_json-export_json :
    (node : FileNode) → import_json (export_json (clone node)) ≡ record node { key = none }
unfolding import_json export_json clone
import_json-export_json node = refl
