-- ===== src/Env/Database.antt =====
-- The rows of prisma/schema.prisma that the server reads or writes, and the Prisma calls that it
-- makes. A `where` clause is a test on rows, and `data` is a change of one row.
use aideep_websocket.Common.{Text, Bytes, ℕ, Bool, Option, List, Io}
use aideep_websocket.Common.Dict.{Dict}

-- A value of a JSON column.
mutual
  pub data Json : Type 0 where
    null : Json
    bool : Bool → Json
    num : ℕ → Json
    str : Text → Json
    arr : Elements → Json
    obj : Fields → Json

  pub data Elements : Type 0 where
    nil : Elements
    cons : Json → Elements → Elements

  pub data Fields : Type 0 where
    end : Fields
    field : Text → Json → Fields → Fields

-- `Record<string, any>`, the type at which the code reads and writes `nodes.content`.
abbrev pub Content : Type 0
Content = Dict Json

-- model nodes, the columns in use
pub record NodeRow : Type 0 where
  pub node_id : Text
  pub content : Option Content
  pub version : ℕ
  pub updated_at : ℕ
  pub deleted_at : Option ℕ
  pub workspace_id : Text
  pub yjs_state : Option Bytes

-- enum workspace_role_enum
pub data Role : Type 0 where
  owner viewer editor : Role

-- model users_workspaces
pub record Membership : Type 0 where
  pub user_id : Text
  pub workspace_id : Text
  pub role : Role
  pub deleted_at : Option ℕ

-- enum file_status_enum
pub data FileStatus : Type 0 where
  pending active orphan deleted : FileStatus

-- model files, the columns in use
pub record FileRow : Type 0 where
  pub file_id : Text
  pub s3_key : Text
  pub workspace_id : Text
  pub status : FileStatus
  pub orphaned_at : Option ℕ
  pub created_at : ℕ
  pub updated_at : ℕ
  pub deleted_at : Option ℕ

-- model file_attachments
pub record AttachmentRow : Type 0 where
  pub file_id : Text
  pub node_id : Text

-- What a saved node tells its caller.
pub record Persisted : Type 0 where
  pub version : ℕ
  pub updated_at : ℕ

-- The result of `updateNodeRow`.
pub record NodeUpdate : Type 0 where
  pub persisted : Persisted
  pub updated_content : Content

pub record Prisma (W : Type 0) : Type 0 where
  -- nodes.findUnique({ where: { node_id } })
  pub nodes_find_unique : Text → Io W (Option NodeRow)
  -- nodes.findFirst({ where })
  pub nodes_find_first : (NodeRow → Bool) → Io W (Option NodeRow)
  -- nodes.update({ where: { node_id }, data }), the row after the update
  pub nodes_update : Text → (NodeRow → NodeRow) → Io W NodeRow
  -- $transaction(fn), for the one transaction of the server
  pub transaction : Io W NodeUpdate → Io W NodeUpdate
  -- users_workspaces.findUnique({ where: { user_id_workspace_id, ... } })
  pub members_find_unique : Text → Text → (Membership → Bool) → Io W (Option Membership)
  -- files.findMany, files.updateMany
  pub files_find_many : (FileRow → Bool) → Io W (List FileRow)
  pub files_update_many : (FileRow → Bool) → (FileRow → FileRow) → Io W (Unit {0})
  -- file_attachments.findMany
  pub attachments_find_many : (AttachmentRow → Bool) → Io W (List AttachmentRow)
  -- file_attachments.createMany({ data, skipDuplicates: true })
  pub attachments_create_many : List AttachmentRow → Io W (Unit {0})
  -- file_attachments.deleteMany
  pub attachments_delete_many : (AttachmentRow → Bool) → Io W (Unit {0})
  -- file_attachments.groupBy({ by: ['file_id'], _count })
  pub attachments_group_by_file : (AttachmentRow → Bool) → Io W (List (Text × ℕ))
