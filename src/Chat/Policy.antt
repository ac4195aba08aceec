-- ===== src/Chat/Policy.antt =====
-- Who may start a direct message, against a description of it.
use mothercare_backend.Prelude.{
  ℕ, Bool, true, false, Option, none, some, List, [], ◌∷◌, ◌≡◌, refl, ◌↔◌, ◌⊎◌, inl, inr, arith,
  Bool-cases, Option-cases, ◌==◌, if◌then◌else◌,
}
use mothercare_backend.Chat.Db.{
  Student, User, ClassRole, ChatDb, any, filter, is_active_status, is_teacher, is_student,
  is_parent, is_staff,
}
use mothercare_backend.Chat.Enrolled.{
  Reaches, Exists, IsTaught, HasClassRole, IsMember, any_iff, taught_child_iff, can_initiate_iff,
  can_receive_iff, has_active_membership_iff, Reaches-looked_up,
}
use mothercare_backend.Chat.Dm.{
  holds_role, flags_of, get_student_dm_flags, is_branch_chat_admin, is_branch_chat_admin_role,
  is_contact_role, has_active_membership, enrolled_group, teaches, taught_child,
  can_user_send_in_direct_message, DmRequest, assert_student_starts, assert_staff_starts,
  assert_between, assert_can_create_direct_message, assert_staff_can_initiate_dm,
  assert_student_can_initiate_dm, assert_student_can_receive_dm, assert_student_may_message_staff,
  assert_teacher_may_message_parent, assert_staff_may_message_student,
  assert_participant_is_branch_staff, Refusal, require, not_enrolled, not_your_teacher,
  student_not_found, not_your_student, parent_not_found, not_your_parents,
}

abbrev pub StudentMayStart : DmRequest → User → ChatDb → Type 0
StudentMayStart r participant db =
    (is_staff participant.role ≡ true)
    × HasClassRole (λ k. k.can_initiate_dms) r.initiator_user_id r.academic_year_id db
    × (IsMember is_branch_chat_admin_role r.branch_id r.participant_user_id db
        ⊎ Reaches r.participant_user_id r.initiator_user_id r.academic_year_id db)

not_restricted :
    (rs : List ClassRole)
    → ((flags_of rs).can_initiate ≡ true) ⊎ ((flags_of rs).can_receive ≡ true)
    → (flags_of rs).is_messaging_restricted ≡ false
not_restricted [] h = ground arith
not_restricted (a ∷ as') h = ground arith

reaches_iff :
    (admin : Bool) (group : Option ℕ) (teaching : ℕ → Bool) (e e' : Refusal)
    → ((if admin then none else elim group [ none ↦ some e | some g ↦ require (teaching g) e' ])
        ≡ none)
      ↔ ((admin ≡ true) ⊎ ((g : ℕ) × (group ≡ some g) × (teaching g ≡ true)))
reaches_iff true group teaching e e' = ground arith
reaches_iff false none teaching e e' = ground arith
reaches_iff false (some g) teaching e e' = elim (Bool-cases (teaching g)) [
  | inl teaching_g ↦ (λ _. inr (g, refl, teaching_g), λ _. rw teaching_g refl)
  | inr idle ↦ (λ h. absurd (ground arith), λ h. ground arith)
]

initiate_flag :
    (user_id year : ℕ) (db : ChatDb)
    → (assert_student_can_initiate_dm user_id year db ≡ none)
      ↔ ((get_student_dm_flags user_id year db).can_initiate ≡ true)
unfolding assert_student_can_initiate_dm get_student_dm_flags
initiate_flag user_id year db =
    ground (arith, not_restricted (filter (holds_role user_id year) db.class_roles))

receive_flag :
    (user_id year : ℕ) (db : ChatDb)
    → (assert_student_can_receive_dm user_id year db ≡ none)
      ↔ ((get_student_dm_flags user_id year db).can_receive ≡ true)
unfolding assert_student_can_receive_dm get_student_dm_flags
receive_flag user_id year db =
    ground (arith, not_restricted (filter (holds_role user_id year) db.class_roles))

iff_trans : {A B C : Type 0} → A ↔ B → B ↔ C → A ↔ C
iff_trans (f, g) (h, k) = (λ a. h (f a), λ c. g (k c))

either_iff : {A B C D : Type 0} → A ↔ C → B ↔ D → (A ⊎ B) ↔ (C ⊎ D)
either_iff h k = ground (arith, h, k)

initiate_iff :
    (user_id year : ℕ) (db : ChatDb)
    → (assert_student_can_initiate_dm user_id year db ≡ none)
      ↔ HasClassRole (λ k. k.can_initiate_dms) user_id year db
initiate_iff user_id year db =
    iff_trans (initiate_flag user_id year db) (can_initiate_iff user_id year db)

receive_iff :
    (user_id year : ℕ) (db : ChatDb)
    → (assert_student_can_receive_dm user_id year db ≡ none)
      ↔ HasClassRole (λ k. k.can_receive_dms) user_id year db
receive_iff user_id year db =
    iff_trans (receive_flag user_id year db) (can_receive_iff user_id year db)

student_access_iff :
    (student_id staff_id branch_id year : ℕ) (db : ChatDb)
    → (assert_student_may_message_staff student_id staff_id branch_id year db ≡ none) ↔ (
        IsMember is_branch_chat_admin_role branch_id staff_id db
        ⊎ Reaches staff_id student_id year db)
unfolding assert_student_may_message_staff
student_access_iff student_id staff_id branch_id year db =
    iff_trans
      (reaches_iff (has_active_membership is_branch_chat_admin_role branch_id staff_id db)
        (enrolled_group student_id year db) (λ group. teaches staff_id group year db) not_enrolled
        not_your_teacher)
      (either_iff (has_active_membership_iff is_branch_chat_admin_role branch_id staff_id db)
        (Reaches-looked_up staff_id student_id year db))

staff_access_iff :
    (staff_id student_id branch_id year : ℕ) (db : ChatDb)
    → (assert_staff_may_message_student staff_id student_id branch_id year db ≡ none)
      ↔ ((is_branch_chat_admin staff_id branch_id db ≡ true) ⊎ Reaches staff_id student_id year db)
unfolding assert_staff_may_message_student
staff_access_iff staff_id student_id branch_id year db =
    iff_trans
      (reaches_iff (is_branch_chat_admin staff_id branch_id db) (enrolled_group student_id year db)
        (λ group. teaches staff_id group year db) student_not_found not_your_student)
      (either_iff (λ h. h, λ h. h) (Reaches-looked_up staff_id student_id year db))

student_starts_iff :
    (r : DmRequest) (participant : User) (db : ChatDb)
    → (assert_student_starts r participant db ≡ none) ↔ StudentMayStart r participant db
unfolding assert_student_starts
student_starts_iff r participant db = ground (
  arith,
  initiate_iff r.initiator_user_id r.academic_year_id db,
  student_access_iff r.initiator_user_id r.participant_user_id r.branch_id r.academic_year_id db,
)

-- The other staff contacts of a teacher or an administrator.
abbrev pub ParentMayBeReached : DmRequest → User → ChatDb → Type 0
ParentMayBeReached r initiator db =
    ((is_teacher initiator.role ≡ true)
      × ((children : List Student) × (db.children r.participant_user_id ≡ some children)
          × Exists (IsTaught r.initiator_user_id r.academic_year_id db) children))
    ⊎ ((is_teacher initiator.role ≡ false)
        × (is_branch_chat_admin r.initiator_user_id r.branch_id db ≡ true))

abbrev pub StaffMayStart : DmRequest → User → User → ChatDb → Type 0
StaffMayStart r initiator participant db =
    (can_user_send_in_direct_message r.initiator_user_id (some r.branch_id) r.academic_year_id db
      ≡ true)
    × (((is_student participant.role ≡ true)
          × ((is_branch_chat_admin r.initiator_user_id r.branch_id db ≡ true)
              ⊎ Reaches r.initiator_user_id r.participant_user_id r.academic_year_id db)
          × HasClassRole (λ k. k.can_receive_dms) r.participant_user_id r.academic_year_id db)
        ⊎ ((is_parent participant.role ≡ true) × ParentMayBeReached r initiator db)
        ⊎ ((is_staff participant.role ≡ true)
            × IsMember is_contact_role r.branch_id r.participant_user_id db))

taught_iff :
    (children : Option (List Student)) (p : List Student → Bool) (e e' : Refusal)
    → ((elim children [ none ↦ some e | some cs ↦ require (p cs) e' ]) ≡ none)
      ↔ ((cs : List Student) × (children ≡ some cs) × (p cs ≡ true))
taught_iff none p e e' = ground arith
taught_iff (some cs) p e e' = elim (Bool-cases (p cs)) [
  | inl taught ↦ (λ _. (cs, refl, taught), λ _. rw taught refl)
  | inr idle ↦ (λ h. absurd (ground arith), λ h. ground arith)
]

parent_iff :
    (teacher_id parent_id year : ℕ) (db : ChatDb)
    → (assert_teacher_may_message_parent teacher_id parent_id year db ≡ none) ↔ (
        (children : List Student) × (db.children parent_id ≡ some children)
        × Exists (IsTaught teacher_id year db) children)
unfolding assert_teacher_may_message_parent
parent_iff teacher_id parent_id year db =
    let looked_up =
      taught_iff (db.children parent_id) (any (taught_child teacher_id year db)) parent_not_found
        not_your_parents in
    let each = any_iff _ _ (taught_child_iff teacher_id year db) in
    (
      λ h. let (cs, found, some_child) = looked_up.0 h in (cs, found, (each cs).0 some_child),
      λ (cs, found, some_child). looked_up.1 (cs, found, (each cs).1 some_child),
    )

staff_starts_iff :
    (r : DmRequest) (initiator participant : User) (db : ChatDb)
    → (assert_staff_starts r initiator participant db ≡ none)
      ↔ StaffMayStart r initiator participant db
unfolding assert_staff_starts assert_staff_can_initiate_dm assert_participant_is_branch_staff
staff_starts_iff r initiator participant db = ground (
  arith,
  has_active_membership_iff is_contact_role r.branch_id r.participant_user_id db,
  receive_iff r.participant_user_id r.academic_year_id db,
  staff_access_iff r.initiator_user_id r.participant_user_id r.branch_id r.academic_year_id db,
  parent_iff r.initiator_user_id r.participant_user_id r.academic_year_id db,
)

-- Who may start a direct message with whom.
abbrev pub MayStart : DmRequest → ChatDb → Type 0
MayStart r db =
    ((r.initiator_user_id == r.participant_user_id) ≡ false)
    × (initiator : User) × (participant : User) × (db.users r.initiator_user_id ≡ some initiator)
    × (is_active_status initiator.status ≡ true)
    × (db.users r.participant_user_id ≡ some participant)
    × (is_active_status participant.status ≡ true)
    × (((is_student initiator.role ≡ true) × StudentMayStart r participant db)
        ⊎ ((is_staff initiator.role ≡ true) × StaffMayStart r initiator participant db))

by_users :
    (r : DmRequest) (initiator participant : User) (db : ChatDb)
    → (assert_between r db initiator participant ≡ none) ↔ (
        (is_active_status participant.status ≡ true)
        × (((is_student initiator.role ≡ true) × StudentMayStart r participant db)
            ⊎ ((is_staff initiator.role ≡ true) × StaffMayStart r initiator participant db)))
unfolding assert_between
by_users r initiator participant db =
    ground (arith, student_starts_iff r participant db, staff_starts_iff r initiator participant db)

both_found :
    (r : DmRequest) (db : ChatDb)
    → assert_can_create_direct_message r db ≡ none
    → (initiator : User) × (participant : User) × (db.users r.initiator_user_id ≡ some initiator)
      × (db.users r.participant_user_id ≡ some participant)
unfolding assert_can_create_direct_message
both_found r db h = elim (Option-cases (db.users r.initiator_user_id)) [
  | inl missing ↦ absurd (ground arith)
  | inr (initiator, found) ↦ elim (Option-cases (db.users r.participant_user_id)) [
    | inl missing ↦ absurd (ground arith)
    | inr (participant, found') ↦ (initiator, participant, found, found')
  ]
]

passes_between :
    (r : DmRequest) (initiator participant : User) (db : ChatDb)
    → db.users r.initiator_user_id ≡ some initiator
    → db.users r.participant_user_id ≡ some participant
    → (assert_can_create_direct_message r db ≡ none) ↔ (
        ((r.initiator_user_id == r.participant_user_id) ≡ false)
        × (is_active_status initiator.status ≡ true)
        × (assert_between r db initiator participant ≡ none))
unfolding assert_can_create_direct_message
passes_between r initiator participant db found found' = ground arith

-- A direct message may be started exactly between two different active accounts, by a student to
-- staff, with a class role that may initiate and is not restricted, to the branch's administration
-- or a teacher of the student's class; or by staff whose own messages are enabled: to a student who
-- may receive them, by the administration or a teacher of the class; to a parent, by a teacher of a
-- child or by the administration; or to an active member of the branch's teaching or administration.
pub direct_message_iff :
    (r : DmRequest) (db : ChatDb) → (assert_can_create_direct_message r db ≡ none) ↔ MayStart r db
direct_message_iff r db = (may_start, start_passes)
  where
    may_start : assert_can_create_direct_message r db ≡ none → MayStart r db
    may_start h =
        let (initiator, participant, found, found') = both_found r db h in
        let (distinct, active, between) =
          (passes_between r initiator participant db found found').0 h in
        let (receives, starts) = (by_users r initiator participant db).0 between in
        (distinct, initiator, participant, found, active, found', receives, starts)

    start_passes : MayStart r db → assert_can_create_direct_message r db ≡ none
    start_passes (distinct, initiator, participant, found, active, found', receives, starts) =
        (passes_between r initiator participant db found found').1
          (distinct, active, (by_users r initiator participant db).1 (receives, starts))
