-- ===== src/Chat/Gated.antt =====
-- The teacher's portal permissions over the posting decision.
use mothercare_backend.Prelude.{
  ℕ, Bool, true, false, Option, none, some, ◌≡◌, refl, sym, ◌∙◌, inl, inr, arith, Bool-cases,
  Option-cases,
}
use mothercare_backend.Portal.Types.{PortalAccess, read_only, frozen, BranchFlags}
use mothercare_backend.Portal.Resolve.{resolve_teacher_permissions}
use mothercare_backend.Chat.Db.{
  User, Profile, Settings, Room, Member, ChatDb, RoomKind, school_announcement,
  teacher_announcement, class_announcement, group_chat, direct_message, teacher, active,
}
use mothercare_backend.Chat.AppGate.{
  input_of, load_teacher_app_chat_permissions, app_chat_allows_post, teacher_app_chat_allows_post,
}
use mothercare_backend.Chat.Post.{
  get_or_create_settings, can_post_school_announcement, can_post_teacher_announcement,
  apply_teacher_app_post_gate, post_by_kind, resolve_can_post,
}

-- The kinds in which people write.
abbrev pub is_written : RoomKind → Bool
is_written school_announcement = true
is_written teacher_announcement = true
is_written class_announcement = true
is_written group_chat = true
is_written direct_message = true
is_written _ = false

gate_passes :
    (user_id : ℕ) (branch_id : Option ℕ) (kind : RoomKind) (allowed : Bool) (db : ChatDb)
    → apply_teacher_app_post_gate user_id branch_id kind allowed db ≡ true
    → teacher_app_chat_allows_post user_id branch_id kind db ≡ true
unfolding apply_teacher_app_post_gate
gate_passes user_id branch_id kind allowed db h = ground arith

-- The gate does not read the settings that a decision may create.
gate_keeps :
    (user_id : ℕ) (branch_id : Option ℕ) (kind : RoomKind) (db : ChatDb)
    (settings : ℕ → Option Settings)
    → teacher_app_chat_allows_post user_id branch_id kind (record db { settings = settings })
      ≡ teacher_app_chat_allows_post user_id branch_id kind db
unfolding teacher_app_chat_allows_post load_teacher_app_chat_permissions
gate_keeps user_id none kind db settings = refl
gate_keeps user_id (some b) kind db settings = refl

-- A portal in which nothing can be written.
abbrev pub is_shut : PortalAccess → Bool
is_shut frozen = true
is_shut read_only = true
is_shut _ = false

app_shuts :
    (profile : Profile) (branch : BranchFlags) (kind : RoomKind)
    → is_shut profile.portal_access ≡ true
    → is_written kind ≡ true
    → app_chat_allows_post (resolve_teacher_permissions (input_of profile branch)).features.app kind
      ≡ false
unfolding app_chat_allows_post resolve_teacher_permissions
app_shuts profile branch kind shut written = ground arith

portal_shuts :
    (user_id branch_id : ℕ) (kind : RoomKind) (db : ChatDb) (user : User) (profile : Profile)
    (branch : BranchFlags)
    → db.users user_id ≡ some user
    → user.role ≡ teacher
    → user.status ≡ active
    → db.profiles user_id ≡ some profile
    → db.branches branch_id ≡ some branch
    → is_shut profile.portal_access ≡ true
    → is_written kind ≡ true
    → teacher_app_chat_allows_post user_id (some branch_id) kind db ≡ false
unfolding teacher_app_chat_allows_post load_teacher_app_chat_permissions
portal_shuts user_id branch_id kind db user profile branch eu role status ep eb shut written =
    rw (eu, status, role, ep, eb, teacher_app_chat_allows_post, load_teacher_app_chat_permissions)
      (app_shuts profile branch kind shut written)

-- The two announcement kinds of a branch decide on its settings.
settings_need_gate :
    (decide : Settings → ChatDb → ℕ → Bool) (kind : RoomKind) (user_id : ℕ) (branch_id : Option ℕ)
    (db : ChatDb)
    → (elim branch_id [
      | none ↦ false
      | some branch ↦
          let (s, db') = get_or_create_settings branch db in
          apply_teacher_app_post_gate user_id (some branch) kind (decide s db' branch) db'
    ])
      ≡ true
    → teacher_app_chat_allows_post user_id branch_id kind db ≡ true
unfolding get_or_create_settings
settings_need_gate decide kind user_id none db h = cc
settings_need_gate decide kind user_id (some branch) db h =
    let (s, db') = get_or_create_settings branch db in
    sym (gate_keeps user_id (some branch) kind db db'.settings)
    ∙ gate_passes user_id (some branch) kind (decide s db' branch) db' h

kind_needs_gate :
    (kind : RoomKind) (user_id : ℕ) (room : Room) (m : Member) (db : ChatDb)
    → is_written kind ≡ true
    → (post_by_kind kind user_id room m db).0 ≡ true
    → teacher_app_chat_allows_post user_id room.branch_id kind db ≡ true
unfolding post_by_kind
kind_needs_gate school_announcement user_id room m db w h =
    settings_need_gate (λ s db' b. can_post_school_announcement user_id b s db') school_announcement
      user_id room.branch_id db
      (elim (Option-cases room.branch_id) [
        | inl alone ↦ ground arith
        | inr (branch, found) ↦ ground arith
      ])
kind_needs_gate teacher_announcement user_id room m db w h =
    settings_need_gate (λ s db' b. can_post_teacher_announcement user_id b s db')
      teacher_announcement user_id room.branch_id db
      (elim (Option-cases room.branch_id) [
        | inl alone ↦ ground arith
        | inr (branch, found) ↦ ground arith
      ])
kind_needs_gate class_announcement user_id room m db w h =
    gate_passes user_id room.branch_id class_announcement _ db h
kind_needs_gate group_chat user_id room m db w h =
    gate_passes user_id room.branch_id group_chat _ db h
kind_needs_gate direct_message user_id room m db w h =
    gate_passes user_id room.branch_id direct_message _ db h
kind_needs_gate kind user_id room m db w h = absurd (cc w)

-- Whoever may post in a room in which people write can read it, is neither muted nor restricted,
-- and passes the app gate for that kind of room.
pub post_needs_gate :
    (user_id : ℕ) (room : Room) (m : Member) (db : ChatDb)
    → is_written room.kind ≡ true
    → (resolve_can_post user_id room m db).0 ≡ true
    → (m.can_read ≡ true)
      × (m.is_muted ≡ false)
      × (m.is_posting_restricted ≡ false)
      × (teacher_app_chat_allows_post user_id room.branch_id room.kind db ≡ true)
unfolding resolve_can_post
post_needs_gate user_id room m db written posts =
    ground (arith, kind_needs_gate room.kind user_id room m db written)

-- An active teacher whose portal is frozen or read-only posts in no room of the branch in which
-- people write, whatever the membership, the room and the branch's settings allow.
pub shut_portal_never_posts :
    (user_id branch_id : ℕ) (room : Room) (m : Member) (db : ChatDb) (user : User)
    (profile : Profile) (branch : BranchFlags)
    → db.users user_id ≡ some user
    → user.role ≡ teacher
    → user.status ≡ active
    → db.profiles user_id ≡ some profile
    → db.branches branch_id ≡ some branch
    → room.branch_id ≡ some branch_id
    → is_shut profile.portal_access ≡ true
    → is_written room.kind ≡ true
    → (resolve_can_post user_id room m db).0 ≡ false
shut_portal_never_posts user_id branch_id room m db user profile branch eu role status ep eb er shut
      written =
    elim (Bool-cases (resolve_can_post user_id room m db).0) [
      | inr refused ↦ refused
      | inl posts ↦
          let passes = (post_needs_gate user_id room m db written posts).3 in
          let stops =
            portal_shuts user_id branch_id room.kind db user profile branch eu role status ep eb
              shut written in
          absurd (cc (passes, stops, er))
    ]
