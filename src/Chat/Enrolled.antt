-- ===== src/Chat/Enrolled.antt =====
-- Descriptions of what the chat policy looks up, without reference to its queries: the class of a
-- student, the classes of a teacher, the roles of a membership.
use mothercare_backend.Prelude.{
  ℕ, Bool, true, false, Option, none, some, List, [], ◌∷◌, ◌≡◌, refl, ap, ◌↔◌, ◌⊎◌, inl, inr, arith,
  ◌==◌, not, sym, subst, ==_iff, ◌&&◌, Bool-cases, some-same,
}
use mothercare_backend.Chat.Db.{
  BranchRole, Membership, Assignment, ClassRole, Student, ChatDb, any, every, filter, find_first,
  is_id,
}
use mothercare_backend.Chat.Dm.{
  enrolled_group, teaches, taught_child, has_active_membership, holds_role, flags_of,
  get_student_dm_flags,
}

-- A row of the student in the year that is active, by its flag and by its status.
abbrev pub IsEnrolled : ℕ → ℕ → Student → Type 0
IsEnrolled user_id year s =
    (s.user_id ≡ some user_id)
    × (s.academic_year_id ≡ year)
    × (s.is_active ≡ true)
    × (s.status_active ≡ true)

-- The first such row has the class.
abbrev pub ClassOf : ℕ → ℕ → ℕ → List Student → Type 0
ClassOf user_id year group [] = ⊥
ClassOf user_id year group (s ∷ ss) =
    (IsEnrolled user_id year s × (s.group_id ≡ some group))
    ⊎ ((¬ IsEnrolled user_id year s) × ClassOf user_id year group ss)

abbrev enrolled_test : ℕ → ℕ → Student → Bool
enrolled_test user_id year s =
    is_id s.user_id user_id && s.academic_year_id == year && s.is_active && s.status_active

is_id_iff : (o : Option ℕ) (b : ℕ) → (is_id o b ≡ true) ↔ (o ≡ some b)
is_id_iff none b = ground arith
is_id_iff (some a) b = (λ h. ap some ((==_iff a b).0 h), λ h. (==_iff a b).1 (some-same h))

IsEnrolled-iff :
    (user_id year : ℕ) (s : Student)
    → (enrolled_test user_id year s ≡ true) ↔ IsEnrolled user_id year s
IsEnrolled-iff user_id year s =
    let user = is_id_iff s.user_id user_id in
    let years = ==_iff s.academic_year_id year in ground (arith, user, years)

group_of_first :
    (user_id year group : ℕ) (ss : List Student)
    → ((elim (find_first (enrolled_test user_id year) ss) [ none ↦ none | some s ↦ s.group_id ])
        ≡ some group)
      ↔ ClassOf user_id year group ss
group_of_first user_id year group [] = ground arith
group_of_first user_id year group (s ∷ ss) = elim (Bool-cases (enrolled_test user_id year s)) [
  | inl is_it ↦ rw is_it (
    λ h. inl ((IsEnrolled-iff user_id year s).0 is_it, h),
    λ c. elim c [
      | inl here ↦ here.1
      | inr later ↦ absurd (later.0 ((IsEnrolled-iff user_id year s).0 is_it))
    ],
  )
  | inr is_not ↦
      let other : ¬ IsEnrolled user_id year s =
        λ h. absurd (let yes_it = (IsEnrolled-iff user_id year s).1 h in cc (is_not, yes_it)) in
      let rest = group_of_first user_id year group ss in
      rw is_not (
        λ h. inr (other, rest.0 h),
        λ c. elim c [ inl here ↦ absurd (other here.0) | inr later ↦ rest.1 later.1 ],
      )
]

pub enrolled_group_iff :
    (user_id year group : ℕ) (db : ChatDb)
    → (enrolled_group user_id year db ≡ some group) ↔ ClassOf user_id year group db.students
unfolding enrolled_group
enrolled_group_iff user_id year group db = group_of_first user_id year group db.students

-- An element with a property.
abbrev pub Exists : {A : Type 0} → (A → Type 0) → List A → Type 0
Exists P [] = ⊥
Exists P (x ∷ xs) = P x ⊎ Exists P xs

pub any_iff :
    {A : Type 0} (p : A → Bool) (P : A → Type 0)
    → ((x : A) → (p x ≡ true) ↔ P x)
    → (xs : List A) → (any p xs ≡ true) ↔ Exists P xs
any_iff p P each [] = ground arith
any_iff p P each (x ∷ xs) =
    let here = each x in let later = any_iff p P each xs in ground (arith, here, later)

-- An assignment of the teacher to the class in the year.
abbrev pub Teaches : ℕ → ℕ → ℕ → ChatDb → Type 0
Teaches teacher_id group year db =
    Exists
      (λ (a : Assignment).
        (a.group_id ≡ group) × (a.academic_year_id ≡ year) × (a.teacher_id ≡ teacher_id))
      db.assignments

pub teaches_iff :
    (teacher_id group year : ℕ) (db : ChatDb)
    → (teaches teacher_id group year db ≡ true) ↔ Teaches teacher_id group year db
teaches_iff teacher_id group year db =
    any_iff _ _
      (λ a.
        let groups = ==_iff a.group_id group in
        let years = ==_iff a.academic_year_id year in
        let teachers = ==_iff a.teacher_id teacher_id in ground (arith, groups, years, teachers))
      db.assignments

-- The teacher has an assignment to the class in which the student is enrolled in the year.
abbrev pub Reaches : ℕ → ℕ → ℕ → ChatDb → Type 0
Reaches teacher_id student_id year db =
    (group : ℕ) × ClassOf student_id year group db.students × Teaches teacher_id group year db

pub Reaches-looked_up :
    (teacher_id student_id year : ℕ) (db : ChatDb)
    → ((group : ℕ) × (enrolled_group student_id year db ≡ some group)
        × (teaches teacher_id group year db ≡ true))
      ↔ Reaches teacher_id student_id year db
Reaches-looked_up teacher_id student_id year db = (
  λ (group, found, taught). (
    group,
    (enrolled_group_iff student_id year group db).0 found,
    (teaches_iff teacher_id group year db).0 taught,
  ),
  λ (group, found, taught). (
    group,
    (enrolled_group_iff student_id year group db).1 found,
    (teaches_iff teacher_id group year db).1 taught,
  ),
)

-- A child of the parent whom the teacher teaches in the year.
abbrev pub IsTaught : ℕ → ℕ → ChatDb → Student → Type 0
IsTaught teacher_id year db c =
    (c.is_active ≡ true)
    × (c.status_active ≡ true)
    × (c.academic_year_id ≡ year)
    × (group : ℕ) × (c.group_id ≡ some group)
    × Teaches teacher_id group year db

group_taught :
    (o : Option ℕ) (teacher_id year : ℕ) (db : ChatDb)
    → ((elim o [ none ↦ false | some group ↦ teaches teacher_id group year db ]) ≡ true)
      ↔ ((group : ℕ) × (o ≡ some group) × Teaches teacher_id group year db)
group_taught none teacher_id year db = ground arith
group_taught (some group) teacher_id year db = (
  λ h. (group, refl, (teaches_iff teacher_id group year db).0 h),
  λ (g, same_group, t).
      (teaches_iff teacher_id group year db).1
        (subst (λ k. Teaches teacher_id k year db) (sym (some-same same_group)) t),
)

pub taught_child_iff :
    (teacher_id year : ℕ) (db : ChatDb) (c : Student)
    → (taught_child teacher_id year db c ≡ true) ↔ IsTaught teacher_id year db c
taught_child_iff teacher_id year db c =
    let years = ==_iff c.academic_year_id year in
    let groups = group_taught c.group_id teacher_id year db in ground (arith, years, groups)

-- An active class role of the student in the year that is not restricted and has the permission.
abbrev pub HasClassRole : (ClassRole → Bool) → ℕ → ℕ → ChatDb → Type 0
HasClassRole permits user_id year db =
    Exists
      (λ (r : ClassRole).
        (r.user_id ≡ some user_id)
        × (r.is_removed ≡ false)
        × (r.academic_year_id ≡ year)
        × (r.is_active ≡ true)
        × (r.is_messaging_restricted ≡ false)
        × (permits r ≡ true))
      db.class_roles

any-filter :
    (p q : ClassRole → Bool) (rs : List ClassRole) → any p (filter q rs) ≡ any (λ r. q r && p r) rs
any-filter p q [] = refl
any-filter p q (r ∷ rs) = let rest = any-filter p q rs in ground (arith, rest)

restricted-none :
    (p : ClassRole → Bool) (rs : List ClassRole)
    → every (λ (r : ClassRole). r.is_messaging_restricted) rs ≡ true
    → any (λ r. not r.is_messaging_restricted && p r) rs ≡ false
restricted-none p [] h = refl
restricted-none p (r ∷ rs) h = let rest = restricted-none p rs in ground (arith, rest)

flags_of-any :
    (rs : List ClassRole)
    → ((flags_of rs).can_initiate
        ≡ any (λ r. not r.is_messaging_restricted && r.can_initiate_dms) rs)
      × ((flags_of rs).can_receive
          ≡ any (λ r. not r.is_messaging_restricted && r.can_receive_dms) rs)
flags_of-any [] = (refl, refl)
flags_of-any (r ∷ rs) =
    elim (Bool-cases (every (λ (k : ClassRole). k.is_messaging_restricted) (r ∷ rs))) [
      | inl all ↦
          rw (flags_of, all)
            (
              sym (restricted-none (λ k. k.can_initiate_dms) (r ∷ rs) all),
              sym (restricted-none (λ k. k.can_receive_dms) (r ∷ rs) all),
            )
      | inr free ↦
          rw (flags_of, free)
            (
              any-filter (λ k. k.can_initiate_dms) (λ k. not k.is_messaging_restricted) (r ∷ rs),
              any-filter (λ k. k.can_receive_dms) (λ k. not k.is_messaging_restricted) (r ∷ rs),
            )
    ]

holds_iff :
    (permits : ClassRole → Bool) (user_id year : ℕ) (db : ChatDb)
    → (any
          (λ r. not r.is_messaging_restricted && permits r)
          (filter (holds_role user_id year) db.class_roles)
        ≡ true)
      ↔ HasClassRole permits user_id year db
holds_iff permits user_id year db =
    rw
      (any-filter (λ r. not r.is_messaging_restricted && permits r) (holds_role user_id year)
        db.class_roles)
      (any_iff _ _
        (λ r.
          let users = is_id_iff r.user_id user_id in
          let years = ==_iff r.academic_year_id year in ground (arith, users, years))
        db.class_roles)

pub can_initiate_iff :
    (user_id year : ℕ) (db : ChatDb)
    → ((get_student_dm_flags user_id year db).can_initiate ≡ true)
      ↔ HasClassRole (λ r. r.can_initiate_dms) user_id year db
unfolding get_student_dm_flags
can_initiate_iff user_id year db =
    rw (flags_of-any (filter (holds_role user_id year) db.class_roles)).0
      (holds_iff (λ r. r.can_initiate_dms) user_id year db)

pub can_receive_iff :
    (user_id year : ℕ) (db : ChatDb)
    → ((get_student_dm_flags user_id year db).can_receive ≡ true)
      ↔ HasClassRole (λ r. r.can_receive_dms) user_id year db
unfolding get_student_dm_flags
can_receive_iff user_id year db =
    rw (flags_of-any (filter (holds_role user_id year) db.class_roles)).1
      (holds_iff (λ r. r.can_receive_dms) user_id year db)

-- An active membership of the branch in one of the roles.
abbrev pub IsMember : (BranchRole → Bool) → ℕ → ℕ → ChatDb → Type 0
IsMember roles branch_id user_id db =
    (m : Membership) × (db.memberships branch_id user_id ≡ some m)
    × (m.is_active ≡ true)
    × (roles m.role ≡ true)

member_of :
    (roles : BranchRole → Bool) (o : Option Membership)
    → ((elim o [ none ↦ false | some m ↦ m.is_active && roles m.role ]) ≡ true)
      ↔ ((m : Membership) × (o ≡ some m) × (m.is_active ≡ true) × (roles m.role ≡ true))
member_of roles none = ground arith
member_of roles (some m) = (
  λ h. (m, refl, ground (arith, h), ground (arith, h)),
  λ (n, same_row, live, role).
      let back : n ≡ m = sym (some-same same_row) in
      subst (λ (k : Membership). k.is_active && roles k.role ≡ true) back
        (ground (arith, live, role)),
)

pub has_active_membership_iff :
    (roles : BranchRole → Bool) (branch_id user_id : ℕ) (db : ChatDb)
    → (has_active_membership roles branch_id user_id db ≡ true)
      ↔ IsMember roles branch_id user_id db
has_active_membership_iff roles branch_id user_id db =
    member_of roles (db.memberships branch_id user_id)
