-- ===== src/Portal/Grants.antt =====
-- What opens a feature of the portal.
use mothercare_backend.Prelude.{
  Bool, true, false, Option, some, List, [], ◌∷◌, All, ◌&◌, ◌≡◌, ◌↔◌, ◌⊎◌, arith,
}
use mothercare_backend.Portal.Types.{Level, allow, deny, Features, ResolveInput}
use mothercare_backend.Portal.Resolve.{
  resolve_teacher_permissions, stored_of, frozen_portal, read_only_portal, is_denied,
}

-- A level that lets a write through, where the branch's setting decides for `inherit`.
abbrev pub Permits : Option Level → Bool → Type 0
Permits (some allow) branch = Unit
Permits (some deny) branch = ⊥
Permits _ branch = branch ≡ true

-- The portal is neither frozen nor read-only.
abbrev pub IsWritable : ResolveInput → Type 0
IsWritable input = (frozen_portal input ≡ false) × (read_only_portal input ≡ false)

-- Attendance can be marked exactly when the portal is writable, neither the group nor its view is
-- denied, and marking is allowed or left to a branch that lets its teachers mark attendance.
pub can_mark_iff :
    (input : ResolveInput)
    → ((resolve_teacher_permissions input).features.attendance.can_mark ≡ true) ↔ (
        IsWritable input
        × (is_denied (stored_of input).attendance.access ≡ false)
        × (is_denied (stored_of input).attendance.view ≡ false)
        × Permits (stored_of input).attendance.mark input.branch.teachers_can_mark_attendance)
unfolding resolve_teacher_permissions
can_mark_iff input = ground arith

-- Marks can be entered exactly when the portal is writable, neither the group nor its view is
-- denied, and entering is allowed or left to a branch that lets its teachers enter marks; a head of
-- department enters the department's marks under the same conditions on that group, and only then.
pub can_enter_iff :
    (input : ResolveInput)
    → (((resolve_teacher_permissions input).features.marks.can_enter ≡ true) ↔ (
        IsWritable input
        × (is_denied (stored_of input).marks.access ≡ false)
        × (is_denied (stored_of input).marks.view ≡ false)
        × Permits (stored_of input).marks.enter input.branch.teachers_can_enter_marks))
      × (((resolve_teacher_permissions input).features.hod.can_enter ≡ true) ↔ (
          (input.is_hod ≡ true)
          × IsWritable input
          × (is_denied (stored_of input).hod.access ≡ false)
          × (is_denied (stored_of input).hod.view ≡ false)
          × Permits (stored_of input).hod.enter input.branch.teachers_can_enter_marks))
unfolding resolve_teacher_permissions
can_enter_iff input = (ground arith, ground arith)

-- A flag of a feature, and the feature's own flag.
abbrev pub nested : Features → List (Bool × Bool)
nested f =
    (f.attendance.can_view, f.attendance.allowed)
    ∷ (f.attendance.can_mark, f.attendance.can_view)
    ∷ (f.marks.can_view, f.marks.allowed)
    ∷ (f.marks.can_enter, f.marks.can_view)
    ∷ (f.hod.can_view, f.hod.allowed)
    ∷ (f.hod.can_enter, f.hod.can_view)
    ∷ (f.notifications.can_mark_read, f.notifications.allowed)
    ∷ (f.profile.can_change_password, f.profile.allowed)
    ∷ (f.parent_contact.can_view, f.parent_contact.allowed)
    ∷ (f.app.can_school_announcement_post, f.app.allowed)
    ∷ (f.app.can_teachers_announcement_post, f.app.allowed)
    ∷ (f.app.can_class_announcement_post, f.app.allowed)
    ∷ (f.app.can_subject_group_post, f.app.allowed)
    ∷ (f.app.can_direct_messages, f.app.allowed)
    ∷ (f.app.can_attachments, f.app.allowed)
    ∷ []

-- No flag of a feature is set where the feature, or the view that a write rests on, is refused.
pub flags_nested :
    (input : ResolveInput)
    → All
        (λ (p : Bool × Bool). (p.0 ≡ false) ⊎ (p.1 ≡ true))
        (nested (resolve_teacher_permissions input).features)
unfolding resolve_teacher_permissions
flags_nested input =
    ground arith
    & ground arith
    & ground arith
    & ground arith
    & ground arith
    & ground arith
    & ground arith
    & ground arith
    & ground arith
    & ground arith
    & ground arith
    & ground arith
    & ground arith
    & ground arith
    & ground arith
    & tt

-- A teacher with an explicit grant of parent contacts, in a branch that has turned them off and a
-- portal that is not frozen and whose group is not denied, gets a feature that is allowed and
-- carries a reason for its refusal, with nothing to view.
pub contact_allowed_with_reason :
    (input : ResolveInput)
    → frozen_portal input ≡ false
    → is_denied (stored_of input).parent_contact.access ≡ false
    → (stored_of input).parent_contact.view ≡ some allow
    → input.branch.teacher_parent_contact_enabled ≡ false
    → let contact = (resolve_teacher_permissions input).features.parent_contact in
      (contact.allowed ≡ true)
      × (contact.can_view ≡ false)
      × (contact.reason ≡ some "Branch parent contacts disabled")
unfolding resolve_teacher_permissions
contact_allowed_with_reason input unfrozen present granted off = ground arith
