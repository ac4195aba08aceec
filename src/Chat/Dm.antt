-- ===== src/Chat/Dm.antt =====
-- src/modules/chat/services/chat-dm-policy.service.ts, and `isBranchChatAdmin` of
-- src/modules/chat/services/chat-permissions.service.ts.
use mothercare_backend.Prelude.{
  ℕ, Bool, true, false, not, ◌&&◌, ◌||◌, Option, none, some, List, [], ◌∷◌, ◌==◌, if◌then◌else◌,
}
use mothercare_backend.Chat.Db.{
  Role, super_admin, management, BranchRole, branch_admin, sub_admin, branch_management,
  branch_teacher, User, Assignment, ClassRole, Student, ChatDb, direct_message, any, every, filter,
  find_first, is_id, is_active_status, is_teacher, is_student, is_parent, is_staff,
}
use mothercare_backend.Chat.AppGate.{teacher_app_chat_allows_post}

-- `BRANCH_CHAT_ADMIN_ROLES`
abbrev pub is_branch_chat_admin_role : BranchRole → Bool
is_branch_chat_admin_role branch_admin = true
is_branch_chat_admin_role sub_admin = true
is_branch_chat_admin_role branch_management = true
is_branch_chat_admin_role _ = false

-- The decision of `isBranchChatAdmin` on an active membership; `PORTAL_ADMIN_USER_ROLES` are the
-- two account roles.
abbrev pub admin_by_role : Role → BranchRole → Bool
admin_by_role super_admin role = true
admin_by_role management role = is_branch_chat_admin_role role
admin_by_role _ role = false

-- `isBranchChatAdmin`
unfoldable pub is_branch_chat_admin : ℕ → ℕ → ChatDb → Bool
is_branch_chat_admin user_id branch_id db = elim (db.users user_id) [
  | none ↦ false
  | some user ↦
      if is_active_status user.status
      then elim (db.memberships branch_id user_id) [
        | none ↦ false
        | some m ↦ if m.is_active then admin_by_role user.role m.role else false
      ]
      else false
]

-- `StudentDmFlags`
pub record DmFlags : Type 0 where
  pub can_initiate : Bool
  pub can_receive : Bool
  pub can_send : Bool
  pub is_messaging_restricted : Bool

abbrev pub holds_role : ℕ → ℕ → ClassRole → Bool
holds_role user_id academic_year_id a =
    is_id a.user_id user_id
    && not a.is_removed
    && a.academic_year_id == academic_year_id
    && a.is_active

abbrev pub flags_of : List ClassRole → DmFlags
flags_of [] = record {
  can_initiate = false;
  can_receive = false;
  can_send = false;
  is_messaging_restricted = false;
}
flags_of (a ∷ as') =
    if every (λ (r : ClassRole). r.is_messaging_restricted) (a ∷ as')
    then record {
      can_initiate = false;
      can_receive = false;
      can_send = false;
      is_messaging_restricted = true;
    }
    else let unrestricted = filter (λ (r : ClassRole). not r.is_messaging_restricted) (a ∷ as') in
      let initiate = any (λ (r : ClassRole). r.can_initiate_dms) unrestricted in
      let receive = any (λ (r : ClassRole). r.can_receive_dms) unrestricted in
      record {
        can_initiate = initiate;
        can_receive = receive;
        can_send = initiate || receive;
        is_messaging_restricted = false;
      }

-- `getStudentDmFlags`
unfoldable pub get_student_dm_flags : ℕ → ℕ → ChatDb → DmFlags
get_student_dm_flags user_id academic_year_id db =
    flags_of (filter (holds_role user_id academic_year_id) db.class_roles)

-- `canUserSendInDirectMessage`
unfoldable pub can_user_send_in_direct_message : ℕ → Option ℕ → ℕ → ChatDb → Bool
unfolding teacher_app_chat_allows_post get_student_dm_flags
can_user_send_in_direct_message user_id branch_id academic_year_id db = elim (db.users user_id) [
  | none ↦ false
  | some user ↦
      if not (is_active_status user.status)
      then false
      else if is_staff user.role
      then if is_teacher user.role
        then teacher_app_chat_allows_post user_id branch_id direct_message db
        else true
      else if is_student user.role
      then (get_student_dm_flags user_id academic_year_id db).can_send
      else false
]

-- One constructor for each `throw`.
pub data Refusal : Type 0 where
  yourself sender_inactive contact_not_found dm_disabled restricted_sender cannot_start : Refusal
  restricted_student cannot_receive not_enrolled not_your_teacher only_staff : Refusal
  parent_not_found not_your_parents student_not_found not_your_student not_admin : Refusal
  contact_unavailable role_unavailable : Refusal

-- A check passes with `none`.
infixr 3 ◌and_then◌
abbrev pub ◌and_then◌ : Option Refusal → Option Refusal → Option Refusal
none and_then next = next
some e and_then next = some e

-- `if (!c) throw e`
abbrev pub require : Bool → Refusal → Option Refusal
require true e = none
require false e = some e

-- `assertStaffCanInitiateDm`
unfoldable pub assert_staff_can_initiate_dm : ℕ → ℕ → ℕ → ChatDb → Option Refusal
unfolding can_user_send_in_direct_message
assert_staff_can_initiate_dm user_id branch_id academic_year_id db =
    require (can_user_send_in_direct_message user_id (some branch_id) academic_year_id db)
      dm_disabled

-- `assertStudentCanInitiateDm`
unfoldable pub assert_student_can_initiate_dm : ℕ → ℕ → ChatDb → Option Refusal
assert_student_can_initiate_dm user_id academic_year_id db =
    let flags = get_student_dm_flags user_id academic_year_id db in
    require (not flags.is_messaging_restricted) restricted_sender
    and_then require flags.can_initiate cannot_start

-- `assertStudentCanReceiveDm`
unfoldable pub assert_student_can_receive_dm : ℕ → ℕ → ChatDb → Option Refusal
assert_student_can_receive_dm user_id academic_year_id db =
    let flags = get_student_dm_flags user_id academic_year_id db in
    require (not flags.is_messaging_restricted) restricted_student
    and_then require flags.can_receive cannot_receive

-- `getStudentEnrollment`, and of the row its class: `none` without either.
unfoldable pub enrolled_group : ℕ → ℕ → ChatDb → Option ℕ
enrolled_group user_id academic_year_id db =
    elim (find_first
      (λ (s : Student).
        is_id s.user_id user_id
        && s.academic_year_id == academic_year_id
        && s.is_active
        && s.status_active)
      db.students) [ none ↦ none | some s ↦ s.group_id ]

-- Whether an assignment of the teacher to the class exists in the year.
abbrev pub teaches : ℕ → ℕ → ℕ → ChatDb → Bool
teaches teacher_id group_id academic_year_id db =
    any
      (λ (a : Assignment).
        a.group_id == group_id
        && a.academic_year_id == academic_year_id
        && a.teacher_id == teacher_id)
      db.assignments

abbrev pub has_active_membership : (BranchRole → Bool) → ℕ → ℕ → ChatDb → Bool
has_active_membership roles branch_id user_id db = elim (db.memberships branch_id user_id) [
  | none ↦ false
  | some m ↦ m.is_active && roles m.role
]

-- `assertStudentMayMessageStaff`
unfoldable pub assert_student_may_message_staff : ℕ → ℕ → ℕ → ℕ → ChatDb → Option Refusal
unfolding enrolled_group
assert_student_may_message_staff student_id staff_id branch_id academic_year_id db =
    if has_active_membership is_branch_chat_admin_role branch_id staff_id db
    then none
    else elim (enrolled_group student_id academic_year_id db) [
      | none ↦ some not_enrolled
      | some group ↦ require (teaches staff_id group academic_year_id db) not_your_teacher
    ]

-- The test on one child of `assertTeacherMayMessageParent`.
abbrev pub taught_child : ℕ → ℕ → ChatDb → Student → Bool
taught_child teacher_id academic_year_id db c =
    c.is_active
    && c.status_active
    && c.academic_year_id == academic_year_id
    && elim c.group_id [ none ↦ false | some group ↦ teaches teacher_id group academic_year_id db ]

-- `assertTeacherMayMessageParent`
unfoldable pub assert_teacher_may_message_parent : ℕ → ℕ → ℕ → ChatDb → Option Refusal
assert_teacher_may_message_parent teacher_id parent_id academic_year_id db =
    elim (db.children parent_id) [
      | none ↦ some parent_not_found
      | some children ↦
          require (any (taught_child teacher_id academic_year_id db) children) not_your_parents
    ]

-- `assertStaffMayMessageStudent`
unfoldable pub assert_staff_may_message_student : ℕ → ℕ → ℕ → ℕ → ChatDb → Option Refusal
unfolding is_branch_chat_admin enrolled_group
assert_staff_may_message_student staff_id student_id branch_id academic_year_id db =
    if is_branch_chat_admin staff_id branch_id db
    then none
    else elim (enrolled_group student_id academic_year_id db) [
      | none ↦ some student_not_found
      | some group ↦ require (teaches staff_id group academic_year_id db) not_your_student
    ]

abbrev pub is_contact_role : BranchRole → Bool
is_contact_role branch_teacher = true
is_contact_role role = is_branch_chat_admin_role role

-- `assertParticipantIsBranchStaff`
unfoldable pub assert_participant_is_branch_staff : ℕ → ℕ → ChatDb → Option Refusal
assert_participant_is_branch_staff user_id branch_id db =
    require (has_active_membership is_contact_role branch_id user_id db) contact_unavailable

-- The input of `assertCanCreateDirectMessage`
pub record DmRequest : Type 0 where
  pub initiator_user_id : ℕ
  pub participant_user_id : ℕ
  pub branch_id : ℕ
  pub academic_year_id : ℕ

-- What a student may start,
unfoldable pub assert_student_starts : DmRequest → User → ChatDb → Option Refusal
unfolding assert_student_can_initiate_dm assert_student_may_message_staff
assert_student_starts r participant db =
    assert_student_can_initiate_dm r.initiator_user_id r.academic_year_id db
    and_then (if is_staff participant.role
        then assert_student_may_message_staff r.initiator_user_id r.participant_user_id r.branch_id
            r.academic_year_id db
        else some only_staff)

-- and what a member of the staff may start.
unfoldable pub assert_staff_starts : DmRequest → User → User → ChatDb → Option Refusal
unfolding assert_staff_can_initiate_dm assert_staff_may_message_student
    assert_student_can_receive_dm assert_teacher_may_message_parent
    assert_participant_is_branch_staff is_branch_chat_admin
assert_staff_starts r initiator participant db =
    assert_staff_can_initiate_dm r.initiator_user_id r.branch_id r.academic_year_id db
    and_then (if is_student participant.role
        then (if is_branch_chat_admin r.initiator_user_id r.branch_id db
            then none
            else assert_staff_may_message_student r.initiator_user_id r.participant_user_id
                r.branch_id r.academic_year_id db)
          and_then assert_student_can_receive_dm r.participant_user_id r.academic_year_id db
        else if is_parent participant.role
        then if is_teacher initiator.role
          then assert_teacher_may_message_parent r.initiator_user_id r.participant_user_id
              r.academic_year_id db
          else require (is_branch_chat_admin r.initiator_user_id r.branch_id db) not_admin
        else if is_staff participant.role
        then assert_participant_is_branch_staff r.participant_user_id r.branch_id db
        else some contact_unavailable)

-- The rules for two accounts, the first of which is active.
unfoldable pub assert_between : DmRequest → ChatDb → User → User → Option Refusal
unfolding assert_student_starts assert_staff_starts
assert_between r db initiator participant =
    if not (is_active_status participant.status)
    then some contact_not_found
    else if is_student initiator.role
    then assert_student_starts r participant db
    else if is_staff initiator.role
    then assert_staff_starts r initiator participant db
    else some role_unavailable

-- `assertCanCreateDirectMessage`
unfoldable pub assert_can_create_direct_message : DmRequest → ChatDb → Option Refusal
unfolding assert_between
assert_can_create_direct_message r db =
    if r.initiator_user_id == r.participant_user_id
    then some yourself
    else elim (db.users r.initiator_user_id) [
      | none ↦ some sender_inactive
      | some initiator ↦
          if not (is_active_status initiator.status)
          then some sender_inactive
          else elim (db.users r.participant_user_id) [
            | none ↦ some contact_not_found
            | some participant ↦ assert_between r db initiator participant
          ]
    ]
