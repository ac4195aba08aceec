-- ===== src/Portal/Denial.antt =====
-- What shuts a portal: the freeze, the read-only portal, and a denied group.
use mothercare_backend.Prelude.{
  Bool, true, false, Option, some, List, [], ◌∷◌, All, ◌&◌, ◌≡◌, ◌⊎◌, arith,
}
use mothercare_backend.Portal.Types.{Level, frozen, Stored, Features, ResolveInput}
use mothercare_backend.Portal.Resolve.{
  resolve_level, resolve_teacher_permissions, child_allowed, write_opts, is_denied,
}

-- The flags that let a teacher change something.
abbrev pub writes : Features → List Bool
writes f =
    f.attendance.can_mark ∷ f.marks.can_enter ∷ f.hod.can_enter ∷ f.notifications.can_mark_read
    ∷ f.profile.can_change_password ∷ f.app.can_school_announcement_post
    ∷ f.app.can_teachers_announcement_post ∷ f.app.can_class_announcement_post
    ∷ f.app.can_subject_group_post ∷ f.app.can_direct_messages ∷ f.app.can_attachments ∷ []

-- The other flags.
abbrev pub reads : Features → List Bool
reads f =
    f.classes.allowed ∷ f.roster.allowed ∷ f.timetable.allowed ∷ f.attendance.allowed
    ∷ f.attendance.can_view ∷ f.marks.allowed ∷ f.marks.can_view ∷ f.hod.allowed ∷ f.hod.can_view
    ∷ f.announcements.allowed ∷ f.notifications.allowed ∷ f.profile.allowed
    ∷ f.parent_contact.allowed ∷ f.parent_contact.can_view ∷ f.app.allowed ∷ []

abbrev pub AllFalse : List Bool → Type 0
AllFalse bs = All (λ (b : Bool). b ≡ false) bs

-- In a frozen portal every flag of every feature is false.
pub frozen_denies :
    (input : ResolveInput)
    → input.portal_access ≡ frozen
    → AllFalse (writes (resolve_teacher_permissions input).features)
      × AllFalse (reads (resolve_teacher_permissions input).features)
unfolding resolve_teacher_permissions
frozen_denies input h = rw h (ground arith)

write_shut :
    (parent : Bool) (level : Option Level) (branch : Option Bool) (read_only : Bool)
    → read_only ≡ true
    → child_allowed parent level (write_opts branch read_only) ≡ false
unfolding resolve_level
write_shut parent level branch read_only h = ground arith

-- In a read-only portal every flag that lets a teacher change something is false.
pub read_only_denies_writes :
    (input : ResolveInput)
    → (resolve_teacher_permissions input).is_read_only ≡ true
    → AllFalse (writes (resolve_teacher_permissions input).features)
unfolding resolve_teacher_permissions
read_only_denies_writes input h =
    write_shut _ _ _ _ h
    & write_shut _ _ _ _ h
    & write_shut _ _ _ _ h
    & write_shut _ _ _ _ h
    & write_shut _ _ _ _ h
    & write_shut _ _ _ _ h
    & write_shut _ _ _ _ h
    & write_shut _ _ _ _ h
    & write_shut _ _ _ _ h
    & write_shut _ _ _ _ h
    & write_shut _ _ _ _ h
    & tt

-- The access level of each group, with the flags of its feature.
abbrev pub groups : Stored → Features → List (Option Level × List Bool)
groups s f =
    (s.classes.access, f.classes.allowed ∷ f.roster.allowed ∷ [])
    ∷ (s.timetable.access, f.timetable.allowed ∷ [])
    ∷ (
      s.attendance.access,
      f.attendance.allowed ∷ f.attendance.can_view ∷ f.attendance.can_mark ∷ [],
    )
    ∷ (s.marks.access, f.marks.allowed ∷ f.marks.can_view ∷ f.marks.can_enter ∷ [])
    ∷ (s.hod.access, f.hod.allowed ∷ f.hod.can_view ∷ f.hod.can_enter ∷ [])
    ∷ (s.announcements.access, f.announcements.allowed ∷ [])
    ∷ (s.notifications.access, f.notifications.allowed ∷ f.notifications.can_mark_read ∷ [])
    ∷ (s.profile.access, f.profile.allowed ∷ f.profile.can_change_password ∷ [])
    ∷ (s.parent_contact.access, f.parent_contact.allowed ∷ f.parent_contact.can_view ∷ [])
    ∷ (
      s.app.access,
      f.app.allowed ∷ f.app.can_school_announcement_post ∷ f.app.can_teachers_announcement_post
          ∷ f.app.can_class_announcement_post ∷ f.app.can_subject_group_post
          ∷ f.app.can_direct_messages ∷ f.app.can_attachments ∷ [],
    )
    ∷ []

-- Denying a group denies its feature with all its flags, whatever the finer levels say; denying
-- the classes denies the roster too.
pub denied_group_denies :
    (input : ResolveInput) (stored : Stored)
    → input.stored ≡ some stored
    → All
        (λ (g : Option Level × List Bool). (is_denied g.0 ≡ false) ⊎ AllFalse g.1)
        (groups stored (resolve_teacher_permissions input).features)
unfolding resolve_teacher_permissions
denied_group_denies input stored h = rw h (
    ground arith
    & ground arith
    & ground arith
    & ground arith
    & ground arith
    & ground arith
    & ground arith
    & ground arith
    & ground arith
    & ground arith
    & tt)
