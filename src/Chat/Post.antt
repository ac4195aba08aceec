-- ===== src/Chat/Post.antt =====
-- src/modules/chat/services/chat-permissions.service.ts: the posting decision per room kind.
use mothercare_backend.Prelude.{
  ℕ, Bool, true, false, not, ◌&&◌, ◌||◌, Option, none, some, List, [], ◌==◌, if◌then◌else◌, get_or,
}
use mothercare_backend.Chat.Db.{
  BranchRole, branch_teacher, MemberAccess, observer, Assignment, ClassRole, Settings, Room, Member,
  ChatDb, RoomKind, school_announcement, teacher_announcement, class_announcement, group_chat,
  direct_message, any, find_first, is_id, is_staff,
}
use mothercare_backend.Chat.AppGate.{teacher_app_chat_allows_post}
use mothercare_backend.Chat.Dm.{
  is_branch_chat_admin, can_user_send_in_direct_message, has_active_membership,
}

abbrev pub default_settings : Settings
default_settings = record {
  school_announcement_posters = [];
  teacher_announcement_posters = [];
  allow_all_teachers = false;
}

-- `getOrCreateBranchChatSettings`: the row, which is there afterwards.
unfoldable pub get_or_create_settings : ℕ → ChatDb → Settings × ChatDb
get_or_create_settings branch_id db =
    let s = get_or (db.settings branch_id) default_settings in
    (s, record db { settings = λ b. if b == branch_id then some s else db.settings b })

-- `userIds.includes(userId)`
abbrev pub includes_user : List ℕ → ℕ → Bool
includes_user ids user_id = any (λ i. i == user_id) ids

-- `canPostSchoolAnnouncement`
unfoldable pub can_post_school_announcement : ℕ → ℕ → Settings → ChatDb → Bool
unfolding is_branch_chat_admin
can_post_school_announcement user_id branch_id s db =
    is_branch_chat_admin user_id branch_id db || includes_user s.school_announcement_posters user_id

abbrev pub is_branch_teacher : BranchRole → Bool
is_branch_teacher branch_teacher = true
is_branch_teacher _ = false

-- `canPostTeacherAnnouncement`
unfoldable pub can_post_teacher_announcement : ℕ → ℕ → Settings → ChatDb → Bool
unfolding is_branch_chat_admin
can_post_teacher_announcement user_id branch_id s db =
    is_branch_chat_admin user_id branch_id db
    || (s.allow_all_teachers && has_active_membership is_branch_teacher branch_id user_id db)
    || includes_user s.teacher_announcement_posters user_id

-- `room.branchId && isBranchChatAdmin(userId, room.branchId)`
abbrev pub admin_of_room : ℕ → Room → ChatDb → Bool
admin_of_room user_id room db = elim room.branch_id [
  | none ↦ false
  | some branch ↦ is_branch_chat_admin user_id branch db
]

-- `canPostClassAnnouncement`
unfoldable pub can_post_class_announcement : ℕ → Room → ChatDb → Bool
unfolding is_branch_chat_admin
can_post_class_announcement user_id room db =
    admin_of_room user_id room db || elim room.class_group_id [
      | none ↦ false
      | some group ↦
          any
            (λ (a : Assignment).
              a.group_id == group
              && a.academic_year_id == room.academic_year_id
              && a.teacher_id == user_id
              && a.is_class_teacher)
            db.assignments
    ]

-- The assignment of the room is the user's.
abbrev pub owns_assignment : ℕ → Room → ChatDb → Bool
owns_assignment user_id room db = elim room.teacher_assignment_id [
  | none ↦ false
  | some id ↦ elim (find_first (λ (a : Assignment). a.id == id) db.assignments) [
    | none ↦ false
    | some a ↦ a.teacher_id == user_id
  ]
]

-- The user holds a class role of the room's community that may post.
abbrev pub holds_posting_role : ℕ → Room → ChatDb → Bool
holds_posting_role user_id room db = elim room.community_id [
  | none ↦ false
  | some community ↦
      any
        (λ (a : ClassRole).
          a.community_id == community
          && not a.is_removed
          && not a.is_messaging_restricted
          && is_id a.user_id user_id
          && a.is_active
          && a.can_post_in_groups)
        db.class_roles
]

-- `canPostGroupChat`
unfoldable pub can_post_group_chat : ℕ → Room → ChatDb → Bool
unfolding is_branch_chat_admin
can_post_group_chat user_id room db =
    admin_of_room user_id room db
    || owns_assignment user_id room db
    || holds_posting_role user_id room db

-- `applyTeacherAppPostGate`
unfoldable pub apply_teacher_app_post_gate : ℕ → Option ℕ → RoomKind → Bool → ChatDb → Bool
unfolding teacher_app_chat_allows_post
apply_teacher_app_post_gate user_id branch_id kind room_allowed db =
    if room_allowed then teacher_app_chat_allows_post user_id branch_id kind db else false

abbrev pub is_observer : MemberAccess → Bool
is_observer observer = true
is_observer _ = false

-- The rule for the kinds that have none of their own.
abbrev pub can_post_elsewhere : ℕ → Room → Member → ChatDb → Bool
can_post_elsewhere user_id room m db =
    if not m.can_post && is_observer m.access
    then false
    else if room.only_staff_can_post
    then elim (db.users user_id) [
      | none ↦ false
      | some user ↦ if is_staff user.role then m.can_post else false
    ]
    else m.can_post

-- The decision for a member who may post at all.
unfoldable pub post_by_kind : RoomKind → ℕ → Room → Member → ChatDb → Bool × ChatDb
unfolding get_or_create_settings can_post_school_announcement can_post_teacher_announcement
    can_post_class_announcement can_post_group_chat apply_teacher_app_post_gate
    can_user_send_in_direct_message
post_by_kind school_announcement user_id room m db = elim room.branch_id [
  | none ↦ (false, db)
  | some branch ↦
      let (s, db') = get_or_create_settings branch db in
      (
        apply_teacher_app_post_gate user_id room.branch_id school_announcement
            (can_post_school_announcement user_id branch s db') db',
        db',
      )
]
post_by_kind teacher_announcement user_id room m db = elim room.branch_id [
  | none ↦ (false, db)
  | some branch ↦
      let (s, db') = get_or_create_settings branch db in
      (
        apply_teacher_app_post_gate user_id room.branch_id teacher_announcement
            (can_post_teacher_announcement user_id branch s db') db',
        db',
      )
]
post_by_kind class_announcement user_id room m db = (
  apply_teacher_app_post_gate user_id room.branch_id class_announcement
      (can_post_class_announcement user_id room db) db,
  db,
)
post_by_kind group_chat user_id room m db = (
  apply_teacher_app_post_gate user_id room.branch_id group_chat
      (can_post_group_chat user_id room db) db,
  db,
)
post_by_kind direct_message user_id room m db = (
  apply_teacher_app_post_gate user_id room.branch_id direct_message
      (can_user_send_in_direct_message user_id room.branch_id room.academic_year_id db) db,
  db,
)
post_by_kind kind user_id room m db = (can_post_elsewhere user_id room m db, db)

-- `resolveCanPost`
unfoldable pub resolve_can_post : ℕ → Room → Member → ChatDb → Bool × ChatDb
unfolding post_by_kind
resolve_can_post user_id room m db =
    if not m.can_read || m.is_muted || m.is_posting_restricted
    then (false, db)
    else post_by_kind room.kind user_id room m db
