-- ===== src/Portal/Resolve.antt =====
-- src/modules/teacher/permissions/teacher-permissions.resolver.ts
use mothercare_backend.Prelude.{
  Bool, true, false, not, ◌&&◌, ◌||◌, Option, none, some, String, if◌then◌else◌, get_or,
}
use mothercare_backend.Portal.Types.{
  Level, allow, deny, assigned_only, PortalAccess, read_only, frozen, Stored, empty_stored,
  FeatureAccess, AttendancePermissions, MarksPermissions, NotificationsPermissions,
  ProfilePermissions, ParentContactPermissions, AppChatPermissions, Resolved, Legacy, ResolveInput,
}

-- The options of `resolveLevel`; a missing flag is false.
pub record LevelOpts : Type 0 where
  pub default_allow : Bool
  pub branch_default : Option Bool
  pub is_write : Bool
  pub read_only_portal : Bool

-- `resolveLevel`
unfoldable pub resolve_level : Option Level → LevelOpts → Bool
resolve_level (some deny) opts = false
resolve_level (some allow) opts = not (opts.is_write && opts.read_only_portal)
resolve_level _ opts =
    if opts.is_write && opts.read_only_portal
    then false
    else get_or opts.branch_default opts.default_allow

-- `feature`
abbrev pub feature : Bool → Option String → FeatureAccess
feature allowed reason =
    if allowed
    then record { allowed = true; reason = none }
    else record { allowed = false; reason = reason }

abbrev pub is_denied : Option Level → Bool
is_denied (some deny) = true
is_denied _ = false

-- `parentAllowed`, given the access level of the group
abbrev pub parent_allowed : Option Level → Bool → Bool
parent_allowed access is_frozen = if is_frozen then false else not (is_denied access)

-- `childAllowed`
abbrev pub child_allowed : Bool → Option Level → LevelOpts → Bool
child_allowed parent_ok level opts = if parent_ok then resolve_level level opts else false

-- `{ defaultAllow: true }`
abbrev pub by_default : LevelOpts
by_default = record {
  default_allow = true;
  branch_default = none;
  is_write = false;
  read_only_portal = false;
}

abbrev pub write_opts : Option Bool → Bool → LevelOpts
write_opts branch_default read_only_portal = record {
  default_allow = true;
  branch_default = branch_default;
  is_write = true;
  read_only_portal = read_only_portal;
}

abbrev pub contact_opts : Bool → LevelOpts
contact_opts enabled = record {
  default_allow = false;
  branch_default = some enabled;
  is_write = false;
  read_only_portal = false;
}

-- `a ?? b` on optional values
abbrev pub or_else {ℓ} : {A : Type ℓ} → Option A → Option A → Option A
or_else none o = o
or_else (some a) o = some a

-- `normalizeStoredPermissions`; what is stored is an object or missing.
unfoldable pub normalize_stored_permissions : Option Stored → Legacy → Stored
normalize_stored_permissions raw legacy =
    let stored = get_or raw empty_stored in
    let granted = if legacy.can_view_parent_contact then some allow else none in
    record stored {
      parent_contact = record stored.parent_contact {
        view = or_else stored.parent_contact.view granted;
        hod_scope = or_else stored.parent_contact.hod_scope (some legacy.hod_parent_contact_scope);
      };
    }

abbrev pub is_frozen_access : PortalAccess → Bool
is_frozen_access frozen = true
is_frozen_access _ = false

abbrev pub is_read_only_access : PortalAccess → Bool
is_read_only_access read_only = true
is_read_only_access _ = false

-- `cond ? text : undefined`
abbrev pub why : Bool → String → Option String → Option String
why c text rest = if c then some text else rest

module _ (input : ResolveInput) where
  abbrev pub frozen_portal : Bool
  frozen_portal = is_frozen_access input.portal_access

  abbrev pub read_only_portal : Bool
  read_only_portal = input.is_read_only || is_read_only_access input.portal_access

  abbrev pub stored_of : Stored
  stored_of = normalize_stored_permissions input.stored input.legacy

  unfoldable pub classes_features : FeatureAccess × FeatureAccess × FeatureAccess
  unfolding resolve_level
  classes_features =
      let parent = parent_allowed stored_of.classes.access frozen_portal in
      (
        feature (child_allowed parent stored_of.classes.access by_default) (
            why frozen_portal "Portal frozen"
              (why (is_denied stored_of.classes.access) "Classes access denied" none)),
        feature
            (child_allowed parent (or_else stored_of.roster.access stored_of.classes.access)
              by_default)
            (why (not parent) "Classes access denied" none),
        feature
            (child_allowed (parent_allowed stored_of.timetable.access frozen_portal)
              stored_of.timetable.access by_default)
            none,
      )

  unfoldable pub attendance_permissions : AttendancePermissions
  unfolding resolve_level
  attendance_permissions =
      let parent = parent_allowed stored_of.attendance.access frozen_portal in
      let view = child_allowed parent stored_of.attendance.view by_default in
      record {
        allowed = parent && view;
        can_view = view;
        can_mark =
            child_allowed (parent && view) stored_of.attendance.mark
              (write_opts (some input.branch.teachers_can_mark_attendance) read_only_portal);
        reason =
            why (not parent) "Attendance access denied"
              (why (not view) "Attendance view denied" none);
      }

  unfoldable pub marks_permissions : MarksPermissions
  unfolding resolve_level
  marks_permissions =
      let parent = parent_allowed stored_of.marks.access frozen_portal in
      let view = child_allowed parent stored_of.marks.view by_default in
      record {
        allowed = parent && view;
        can_view = view;
        can_enter =
            child_allowed (parent && view) stored_of.marks.enter
              (write_opts (some input.branch.teachers_can_enter_marks) read_only_portal);
        reason = why (not parent) "Marks access denied" (why (not view) "Marks view denied" none);
      }

  unfoldable pub hod_permissions : MarksPermissions
  unfolding resolve_level
  hod_permissions =
      let parent = input.is_hod && parent_allowed stored_of.hod.access frozen_portal in
      let view = child_allowed parent stored_of.hod.view by_default in
      record {
        allowed = parent && view;
        can_view = view;
        can_enter =
            child_allowed (parent && view) stored_of.hod.enter
              (write_opts (some input.branch.teachers_can_enter_marks) read_only_portal);
        reason =
            why (not input.is_hod) "Not a department head"
              (why (not parent) "HOD access denied" none);
      }

  unfoldable pub notifications_permissions : NotificationsPermissions
  unfolding resolve_level
  notifications_permissions =
      let parent = parent_allowed stored_of.notifications.access frozen_portal in
      record {
        allowed = parent;
        can_mark_read =
            child_allowed parent stored_of.notifications.mark_read
              (write_opts none read_only_portal);
        reason = why (not parent) "Notifications access denied" none;
      }

  unfoldable pub profile_permissions : ProfilePermissions
  unfolding resolve_level
  profile_permissions =
      let parent = parent_allowed stored_of.profile.access frozen_portal in
      record {
        allowed = parent;
        can_change_password =
            child_allowed parent stored_of.profile.change_password
              (write_opts none read_only_portal);
        reason = why (not parent) "Profile access denied" none;
      }

  unfoldable pub parent_contact_permissions : ParentContactPermissions
  unfolding resolve_level
  parent_contact_permissions =
      let parent = parent_allowed stored_of.parent_contact.access frozen_portal in
      let enabled = input.branch.teacher_parent_contact_enabled in
      let granted = if input.legacy.can_view_parent_contact then some allow else none in
      let view =
        child_allowed parent (or_else stored_of.parent_contact.view granted)
          (contact_opts enabled) in
      record {
        allowed = parent && view;
        can_view = view && enabled;
        hod_scope = get_or stored_of.parent_contact.hod_scope input.legacy.hod_parent_contact_scope;
        reason =
            why (not parent) "Parent contacts denied"
              (why (not enabled) "Branch parent contacts disabled" none);
      }

  unfoldable pub app_permissions : AppChatPermissions
  unfolding resolve_level
  app_permissions =
      let parent = parent_allowed stored_of.app.access frozen_portal in
      let access = child_allowed parent stored_of.app.access by_default in
      let write : Option Level → Bool =
        λ level. child_allowed (parent && access) level (write_opts none read_only_portal) in
      record {
        allowed = parent && access;
        can_school_announcement_post = write stored_of.app.school_announcement_post;
        can_teachers_announcement_post = write stored_of.app.teachers_announcement_post;
        can_class_announcement_post = write stored_of.app.class_announcement_post;
        can_subject_group_post = write stored_of.app.subject_group_post;
        can_direct_messages = write stored_of.app.direct_messages;
        can_attachments = write stored_of.app.attachments;
        reason =
            why frozen_portal "Portal frozen"
              (why (not parent || not access) "Mobile chat access denied" none);
      }

  -- `resolveTeacherPermissions`
  unfoldable pub resolve_teacher_permissions : Resolved
  unfolding classes_features attendance_permissions marks_permissions hod_permissions
      notifications_permissions profile_permissions parent_contact_permissions app_permissions
      resolve_level normalize_stored_permissions
  resolve_teacher_permissions = record {
    portal_access = input.portal_access;
    is_frozen = frozen_portal;
    is_read_only = read_only_portal;
    features = record {
      classes = classes_features.0;
      roster = classes_features.1;
      timetable = classes_features.2;
      attendance = attendance_permissions;
      marks = marks_permissions;
      hod = hod_permissions;
      announcements =
          feature
            (child_allowed (parent_allowed stored_of.announcements.access frozen_portal)
              stored_of.announcements.access by_default)
            none;
      notifications = notifications_permissions;
      profile = profile_permissions;
      parent_contact = parent_contact_permissions;
      app = app_permissions;
    };
  }

-- `syncLegacyFieldsFromPermissions`
unfoldable pub sync_legacy_fields : Stored → Legacy
sync_legacy_fields stored = record {
  can_view_parent_contact = elim stored.parent_contact.view [
    | some allow ↦ true
    | some _ ↦ false
    | none ↦ false
  ];
  hod_parent_contact_scope = get_or stored.parent_contact.hod_scope assigned_only;
}
