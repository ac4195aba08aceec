-- ===== src/Chat/AppGate.antt =====
-- src/modules/chat/services/teacher-app-chat-permissions.service.ts
use mothercare_backend.Prelude.{ℕ, Bool, true, false, ◌&&◌, Option, none, some, if◌then◌else◌}
use mothercare_backend.Portal.Types.{AppChatPermissions, ResolveInput, BranchFlags}
use mothercare_backend.Portal.Resolve.{resolve_teacher_permissions, is_read_only_access}
use mothercare_backend.Chat.Db.{
  Profile, ChatDb, RoomKind, school_announcement, teacher_announcement, class_announcement,
  group_chat, direct_message, is_active_status, is_teacher,
}

abbrev pub input_of : Profile → BranchFlags → ResolveInput
input_of profile branch = record {
  portal_access = profile.portal_access;
  is_read_only = is_read_only_access profile.portal_access;
  is_hod = false;
  stored = profile.portal_permissions;
  legacy = profile.legacy;
  branch = branch;
}

-- `loadTeacherAppChatPermissions`
unfoldable pub load_teacher_app_chat_permissions : ℕ → ℕ → ChatDb → Option AppChatPermissions
load_teacher_app_chat_permissions user_id branch_id db = elim (db.users user_id) [
  | none ↦ none
  | some user ↦
      if is_active_status user.status && is_teacher user.role
      then elim (db.profiles user_id) [
        | none ↦ none
        | some profile ↦ elim (db.branches branch_id) [
          | none ↦ none
          | some branch ↦ some (resolve_teacher_permissions (input_of profile branch)).features.app
        ]
      ]
      else none
]

-- `appChatAllowsPost`
unfoldable pub app_chat_allows_post : AppChatPermissions → RoomKind → Bool
app_chat_allows_post app school_announcement = app.allowed && app.can_school_announcement_post
app_chat_allows_post app teacher_announcement = app.allowed && app.can_teachers_announcement_post
app_chat_allows_post app class_announcement = app.allowed && app.can_class_announcement_post
app_chat_allows_post app group_chat = app.allowed && app.can_subject_group_post
app_chat_allows_post app direct_message = app.allowed && app.can_direct_messages
app_chat_allows_post app _ = app.allowed

-- `teacherAppChatAllowsPost`
unfoldable pub teacher_app_chat_allows_post : ℕ → Option ℕ → RoomKind → ChatDb → Bool
unfolding load_teacher_app_chat_permissions app_chat_allows_post
teacher_app_chat_allows_post user_id none kind db = true
teacher_app_chat_allows_post user_id (some branch_id) kind db =
    elim (load_teacher_app_chat_permissions user_id branch_id db) [
      | none ↦ true
      | some app ↦ app_chat_allows_post app kind
    ]

-- `teacherAppChatAllowsAttachments`
unfoldable pub teacher_app_chat_allows_attachments : ℕ → ℕ → ChatDb → Bool
unfolding load_teacher_app_chat_permissions
teacher_app_chat_allows_attachments user_id branch_id db =
    elim (load_teacher_app_chat_permissions user_id branch_id db) [
      | none ↦ true
      | some app ↦ app.allowed && app.can_attachments
    ]
