-- ===== src/Membership.antt =====
-- src/domain/membership/repository/membership.repository.ts
use aideep_websocket.Common.{Text, Option, none, Io, pure, ◌||◌, is_empty, if◌then◌else◌}
use aideep_websocket.Env.{Env}
use aideep_websocket.Env.Database.{Membership}
use aideep_websocket.Attachments.{is_null}

-- `checkWorkspace`: the membership that is not deleted; without ids it asks nobody.
unfoldable pub check_workspace :
    {D E W : Type 0} → Env D E W → Text → Text → Io W (Option Membership)
check_workspace env user_id workspace_id =
    if is_empty user_id || is_empty workspace_id
    then pure none
    else env.prisma.members_find_unique user_id workspace_id (λ m. is_null m.deleted_at)
