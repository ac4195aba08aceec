-- ===== src/Chat/Tests.antt =====
-- A branch with a teacher whose portal is read-only, and a student with a class role.
use mothercare_backend.Prelude.{
  ℕ, true, false, Option, none, some, [], ◌∷◌, ◌≡◌, refl, ◌↔◌, ◌==◌, if◌then◌else◌,
}
use mothercare_backend.Portal.Types.{read_only, full, assigned_only, BranchFlags}
use mothercare_backend.Chat.Db.{
  teacher, student, User, active, branch_teacher, Profile, ClassRole, Room, Member, member, ChatDb,
  teacher_announcement,
}
use mothercare_backend.Portal.Resolve.{resolve_teacher_permissions}
use mothercare_backend.Chat.Post.{resolve_can_post}
use mothercare_backend.Chat.Gated.{shut_portal_never_posts}
use mothercare_backend.Chat.Dm.{DmRequest, assert_can_create_direct_message}
use mothercare_backend.Chat.Policy.{MayStart, direct_message_iff}

-- User 1 is a teacher with a full portal, 2 one with a read-only portal, 3 a student.
abbrev school_users : ℕ → Option User
school_users id =
    if id == 3
    then some (record { role = student; status = active })
    else if id == 1
    then some (record { role = teacher; status = active })
    else if id == 2
    then some (record { role = teacher; status = active })
    else none

abbrev teacher_profile : ℕ → Profile
teacher_profile id = record {
  portal_access = if id == 2 then read_only else full;
  portal_permissions = none;
  legacy = record { can_view_parent_contact = false; hod_parent_contact_scope = assigned_only };
}

abbrev class_captain : ClassRole
class_captain = record {
  user_id = some 3;
  community_id = 9;
  academic_year_id = 7;
  is_removed = false;
  is_messaging_restricted = false;
  is_active = true;
  can_post_in_groups = true;
  can_receive_dms = true;
  can_initiate_dms = true;
}

abbrev open_branch : BranchFlags
open_branch = record {
  teacher_parent_contact_enabled = true;
  teachers_can_mark_attendance = true;
  teachers_can_enter_marks = true;
}

abbrev school : ChatDb
school = record {
  users = school_users;
  memberships = λ branch user. some (record { role = branch_teacher; is_active = true });
  profiles = λ id. some (teacher_profile id);
  branches = λ id. some open_branch;
  settings = λ id. some (record {
    school_announcement_posters = [];
    teacher_announcement_posters = [];
    allow_all_teachers = true;
  });
  assignments =
      record { id = 4; group_id = 5; academic_year_id = 7; teacher_id = 1; is_class_teacher = true }
      ∷ [];
  class_roles = class_captain ∷ [];
  students =
      record {
        user_id = some 3;
        academic_year_id = 7;
        group_id = some 5;
        is_active = true;
        status_active = true;
      }
      ∷ [];
  children = λ id. none;
}

abbrev staff_room : Room
staff_room = record {
  kind = teacher_announcement;
  branch_id = some 6;
  class_group_id = none;
  academic_year_id = 7;
  only_staff_can_post = true;
  teacher_assignment_id = none;
  community_id = none;
}

abbrev plain_member : Member
plain_member = record {
  can_post = true;
  access = member;
  is_muted = false;
  is_posting_restricted = false;
  can_read = true;
}

abbrev to_teacher : DmRequest
to_teacher = record {
  initiator_user_id = 3;
  participant_user_id = 1;
  branch_id = 6;
  academic_year_id = 7;
}

-- With a full portal the same post is allowed.
full_portal_posts : (resolve_can_post 1 staff_room plain_member school).0 ≡ true
unfolding resolve_can_post resolve_teacher_permissions
full_portal_posts = refl

captain_starts : assert_can_create_direct_message to_teacher school ≡ none
unfolding assert_can_create_direct_message
captain_starts = refl

shut_portal_never_posts_example : (resolve_can_post 2 staff_room plain_member school).0 ≡ false
shut_portal_never_posts_example =
    shut_portal_never_posts 2 6 staff_room plain_member school
      (record { role = teacher; status = active }) (teacher_profile 2) open_branch refl refl refl
      refl refl refl refl refl

direct_message_iff_example :
    (assert_can_create_direct_message to_teacher school ≡ none) ↔ MayStart to_teacher school
direct_message_iff_example = direct_message_iff to_teacher school
