-- ===== src/Chat/Db.antt =====
-- The tables that the chat policies read (prisma/schema.prisma). Ids are only compared, so they are
-- numbers; a table with a unique key is a function of it, and one that is searched is a list.
use mothercare_backend.Prelude.{
  ℕ, Bool, true, false, ◌||◌, ◌&&◌, Option, none, some, List, [], ◌∷◌, ◌==◌, if◌then◌else◌,
}
use mothercare_backend.Portal.Types.{PortalAccess, Stored, Legacy, BranchFlags}

-- `enum Role`
pub data Role : Type 0 where
  super_admin management teacher parent student : Role

-- `enum AccountStatus`
pub data AccountStatus : Type 0 where
  active inactive suspended : AccountStatus

-- `enum BranchRole`; the names that `Role` has too carry the branch.
pub data BranchRole : Type 0 where
  branch_admin sub_admin branch_management branch_teacher branch_parent : BranchRole
  canteen_staff worker : BranchRole

-- `enum ChatRoomKind`
pub data RoomKind : Type 0 where
  school_announcement teacher_announcement class_announcement group_chat direct_message : RoomKind
  system_attendance system_payment system_result system_teacher_alerts : RoomKind
  system_teacher_attendance system_teacher_payroll : RoomKind

-- `enum ChatMemberAccess`
pub data MemberAccess : Type 0 where
  owner moderator poster member observer : MemberAccess

pub record User : Type 0 where
  pub role : Role
  pub status : AccountStatus

pub record Membership : Type 0 where
  pub role : BranchRole
  pub is_active : Bool

pub record Profile : Type 0 where
  pub portal_access : PortalAccess
  pub portal_permissions : Option Stored
  pub legacy : Legacy

-- `model TeacherAssignment`
pub record Assignment : Type 0 where
  pub id : ℕ
  pub group_id : ℕ
  pub academic_year_id : ℕ
  pub teacher_id : ℕ
  pub is_class_teacher : Bool

-- `model ClassRoleAssignment`, with its definition's columns and its community's year.
pub record ClassRole : Type 0 where
  pub user_id : Option ℕ
  pub community_id : ℕ
  pub academic_year_id : ℕ
  pub is_removed : Bool
  pub is_messaging_restricted : Bool
  pub is_active : Bool
  pub can_post_in_groups : Bool
  pub can_receive_dms : Bool
  pub can_initiate_dms : Bool

-- `model BranchChatSettings`
pub record Settings : Type 0 where
  pub school_announcement_posters : List ℕ
  pub teacher_announcement_posters : List ℕ
  pub allow_all_teachers : Bool

-- `model Student`; `status_active` is `status === 'ACTIVE'`.
pub record Student : Type 0 where
  pub user_id : Option ℕ
  pub academic_year_id : ℕ
  pub group_id : Option ℕ
  pub is_active : Bool
  pub status_active : Bool

pub record Room : Type 0 where
  pub kind : RoomKind
  pub branch_id : Option ℕ
  pub class_group_id : Option ℕ
  pub academic_year_id : ℕ
  pub only_staff_can_post : Bool
  pub teacher_assignment_id : Option ℕ
  pub community_id : Option ℕ

pub record Member : Type 0 where
  pub can_post : Bool
  pub access : MemberAccess
  pub is_muted : Bool
  pub is_posting_restricted : Bool
  pub can_read : Bool

-- `memberships` is keyed by branch and user; `children` are the students of a parent's profile.
pub record ChatDb : Type 0 where
  pub users : ℕ → Option User
  pub memberships : ℕ → ℕ → Option Membership
  pub profiles : ℕ → Option Profile
  pub branches : ℕ → Option BranchFlags
  pub settings : ℕ → Option Settings
  pub assignments : List Assignment
  pub class_roles : List ClassRole
  pub students : List Student
  pub children : ℕ → Option (List Student)

module _ {ℓ} {A : Type ℓ} (p : A → Bool) where
  -- `findFirst(…) != null`, `some`
  abbrev pub any : List A → Bool
  any [] = false
  any (x ∷ xs) = p x || any xs

  -- `every`
  abbrev pub every : List A → Bool
  every [] = true
  every (x ∷ xs) = p x && every xs

  -- `filter`
  abbrev pub filter : List A → List A
  filter [] = []
  filter (x ∷ xs) = if p x then x ∷ filter xs else filter xs

  -- `findFirst`
  abbrev pub find_first : List A → Option A
  find_first [] = none
  find_first (x ∷ xs) = if p x then some x else find_first xs

-- `a === b` where `a` may be missing.
abbrev pub is_id : Option ℕ → ℕ → Bool
is_id none b = false
is_id (some a) b = a == b

abbrev pub is_active_status : AccountStatus → Bool
is_active_status active = true
is_active_status _ = false

abbrev pub is_teacher : Role → Bool
is_teacher teacher = true
is_teacher _ = false

abbrev pub is_student : Role → Bool
is_student student = true
is_student _ = false

abbrev pub is_parent : Role → Bool
is_parent parent = true
is_parent _ = false

-- `STAFF_ROLES`; of its six names three are account roles.
abbrev pub is_staff : Role → Bool
is_staff teacher = true
is_staff management = true
is_staff super_admin = true
is_staff _ = false
