-- ===== src/Portal/Types.antt =====
-- src/modules/teacher/permissions/teacher-permissions.types.ts. A field that may be missing is an
-- `Option`; a missing group is the group with no field set, since it is only read by `?.`.
use mothercare_backend.Prelude.{Bool, Option, none, String}

-- `PermissionLevel`
pub data Level : Type 0 where
  inherit allow deny : Level

-- `HodParentContactScope`
pub data HodScope : Type 0 where
  assigned_only department_all : HodScope

-- `portalAccess`
pub data PortalAccess : Type 0 where
  full read_only frozen : PortalAccess

pub record AccessStored : Type 0 where
  pub access : Option Level

pub record AttendanceStored : Type 0 where
  pub access : Option Level
  pub view : Option Level
  pub mark : Option Level

-- `marks` and `hod`
pub record MarksStored : Type 0 where
  pub access : Option Level
  pub view : Option Level
  pub enter : Option Level

pub record NotificationsStored : Type 0 where
  pub access : Option Level
  pub mark_read : Option Level

pub record ProfileStored : Type 0 where
  pub access : Option Level
  pub change_password : Option Level

pub record ParentContactStored : Type 0 where
  pub access : Option Level
  pub view : Option Level
  pub hod_scope : Option HodScope

pub record AppStored : Type 0 where
  pub access : Option Level
  pub school_announcement_post : Option Level
  pub teachers_announcement_post : Option Level
  pub class_announcement_post : Option Level
  pub subject_group_post : Option Level
  pub direct_messages : Option Level
  pub attachments : Option Level

-- `TeacherPortalPermissionsStored`
pub record Stored : Type 0 where
  pub classes : AccessStored
  pub roster : AccessStored
  pub timetable : AccessStored
  pub attendance : AttendanceStored
  pub marks : MarksStored
  pub hod : MarksStored
  pub announcements : AccessStored
  pub notifications : NotificationsStored
  pub profile : ProfileStored
  pub parent_contact : ParentContactStored
  pub app : AppStored

abbrev no_access : AccessStored
no_access = record { access = none }

abbrev no_marks : MarksStored
no_marks = record { access = none; view = none; enter = none }

-- `{}`
abbrev pub empty_stored : Stored
empty_stored = record {
  classes = no_access;
  roster = no_access;
  timetable = no_access;
  attendance = record { access = none; view = none; mark = none };
  marks = no_marks;
  hod = no_marks;
  announcements = no_access;
  notifications = record { access = none; mark_read = none };
  profile = record { access = none; change_password = none };
  parent_contact = record { access = none; view = none; hod_scope = none };
  app = record {
    access = none;
    school_announcement_post = none;
    teachers_announcement_post = none;
    class_announcement_post = none;
    subject_group_post = none;
    direct_messages = none;
    attachments = none;
  };
}

-- `FeatureAccess`
pub record FeatureAccess : Type 0 where
  pub allowed : Bool
  pub reason : Option String

pub record AttendancePermissions : Type 0 where
  pub allowed : Bool
  pub can_view : Bool
  pub can_mark : Bool
  pub reason : Option String

-- `MarksPermissions` and `HodPermissions`
pub record MarksPermissions : Type 0 where
  pub allowed : Bool
  pub can_view : Bool
  pub can_enter : Bool
  pub reason : Option String

pub record NotificationsPermissions : Type 0 where
  pub allowed : Bool
  pub can_mark_read : Bool
  pub reason : Option String

pub record ProfilePermissions : Type 0 where
  pub allowed : Bool
  pub can_change_password : Bool
  pub reason : Option String

pub record ParentContactPermissions : Type 0 where
  pub allowed : Bool
  pub can_view : Bool
  pub hod_scope : HodScope
  pub reason : Option String

pub record AppChatPermissions : Type 0 where
  pub allowed : Bool
  pub can_school_announcement_post : Bool
  pub can_teachers_announcement_post : Bool
  pub can_class_announcement_post : Bool
  pub can_subject_group_post : Bool
  pub can_direct_messages : Bool
  pub can_attachments : Bool
  pub reason : Option String

pub record Features : Type 0 where
  pub classes : FeatureAccess
  pub roster : FeatureAccess
  pub timetable : FeatureAccess
  pub attendance : AttendancePermissions
  pub marks : MarksPermissions
  pub hod : MarksPermissions
  pub announcements : FeatureAccess
  pub notifications : NotificationsPermissions
  pub profile : ProfilePermissions
  pub parent_contact : ParentContactPermissions
  pub app : AppChatPermissions

-- `ResolvedTeacherPermissions`
pub record Resolved : Type 0 where
  pub portal_access : PortalAccess
  pub is_frozen : Bool
  pub is_read_only : Bool
  pub features : Features

pub record Legacy : Type 0 where
  pub can_view_parent_contact : Bool
  pub hod_parent_contact_scope : HodScope

pub record BranchFlags : Type 0 where
  pub teacher_parent_contact_enabled : Bool
  pub teachers_can_mark_attendance : Bool
  pub teachers_can_enter_marks : Bool

-- `PermissionResolveInput`
pub record ResolveInput : Type 0 where
  pub portal_access : PortalAccess
  pub is_read_only : Bool
  pub is_hod : Bool
  pub stored : Option Stored
  pub legacy : Legacy
  pub branch : BranchFlags
