-- ===== src/Portal/Tests.antt =====
-- A teacher with one explicit grant, in a branch that lets its teachers mark attendance.
use mothercare_backend.Prelude.{true, false, none, some, ◌≡◌, refl}
use mothercare_backend.Portal.Types.{
  allow, deny, department_all, PortalAccess, full, read_only, frozen, Stored, empty_stored, Legacy,
  BranchFlags, ResolveInput,
}
use mothercare_backend.Portal.Resolve.{resolve_teacher_permissions, normalize_stored_permissions}
use mothercare_backend.Portal.Denial.{
  writes, reads, AllFalse, frozen_denies, read_only_denies_writes,
}
use mothercare_backend.Portal.Grants.{contact_allowed_with_reason}

abbrev legacy_columns : Legacy
legacy_columns = record {
  can_view_parent_contact = true;
  hod_parent_contact_scope = department_all;
}

abbrev branch_flags : BranchFlags
branch_flags = record {
  teacher_parent_contact_enabled = false;
  teachers_can_mark_attendance = true;
  teachers_can_enter_marks = false;
}

-- Marks may be entered against the branch's setting, and the classes are denied.
abbrev stored_levels : Stored
stored_levels = record empty_stored {
  marks = record { access = none; view = none; enter = some allow };
  classes = record { access = some deny };
}

abbrev teacher_with : PortalAccess → ResolveInput
teacher_with access = record {
  portal_access = access;
  is_read_only = false;
  is_hod = false;
  stored = some stored_levels;
  legacy = legacy_columns;
  branch = branch_flags;
}

frozen_denies_example :
    AllFalse (writes (resolve_teacher_permissions (teacher_with frozen)).features)
    × AllFalse (reads (resolve_teacher_permissions (teacher_with frozen)).features)
frozen_denies_example = frozen_denies (teacher_with frozen) refl

read_only_denies_writes_example :
    AllFalse (writes (resolve_teacher_permissions (teacher_with read_only)).features)
unfolding resolve_teacher_permissions
read_only_denies_writes_example = read_only_denies_writes (teacher_with read_only) refl

contact_allowed_with_reason_example :
    let contact = (resolve_teacher_permissions (teacher_with full)).features.parent_contact in
    (contact.allowed ≡ true)
    × (contact.can_view ≡ false)
    × (contact.reason ≡ some "Branch parent contacts disabled")
unfolding normalize_stored_permissions
contact_allowed_with_reason_example =
    contact_allowed_with_reason (teacher_with full) refl refl refl refl

-- The explicit grant opens the marks although the branch keeps its teachers from entering them.
grant_over_branch :
    (resolve_teacher_permissions (teacher_with full)).features.marks.can_enter ≡ true
unfolding resolve_teacher_permissions
grant_over_branch = refl
