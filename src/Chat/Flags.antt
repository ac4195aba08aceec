-- ===== src/Chat/Flags.antt =====
-- The flags of a student's class roles, against a description of them.
use mothercare_backend.Prelude.{
  ℕ, Bool, true, false, not, ◌&&◌, List, [], ◌∷◌, ◌≡◌, refl, ◌∙◌, inl, inr, arith, Bool-cases,
}
use mothercare_backend.Chat.Db.{ClassRole, ChatDb, any, every, filter}
use mothercare_backend.Chat.Dm.{holds_role, flags_of, get_student_dm_flags}

any-filter :
    {A : Type 0} (p q : A → Bool) (xs : List A) → any p (filter q xs) ≡ any (λ x. q x && p x) xs
any-filter p q [] = refl
any-filter p q (x ∷ xs) = ground (arith, any-filter p q xs)

every-any :
    {A : Type 0} (p q : A → Bool) (xs : List A)
    → every q xs ≡ true
    → any (λ x. not (q x) && p x) xs ≡ false
every-any p q [] h = refl
every-any p q (x ∷ xs) h = ground (arith, every-any p q xs)

-- The flags read off the roles that are held, in no order.
abbrev pub unrestricted : (ClassRole → Bool) → List ClassRole → Bool
unrestricted p rs = any (λ (r : ClassRole). not r.is_messaging_restricted && p r) rs

flags_of-eq :
    (rs : List ClassRole)
    → ((flags_of rs).can_initiate ≡ unrestricted (λ (r : ClassRole). r.can_initiate_dms) rs)
      × ((flags_of rs).can_receive ≡ unrestricted (λ (r : ClassRole). r.can_receive_dms) rs)
flags_of-eq [] = (refl, refl)
flags_of-eq (a ∷ as') =
    elim (Bool-cases (every (λ (r : ClassRole). r.is_messaging_restricted) (a ∷ as'))) [
      | inl all ↦ ground (
        arith,
        every-any (λ (r : ClassRole). r.can_initiate_dms)
            (λ (r : ClassRole). r.is_messaging_restricted) (a ∷ as') all,
        every-any (λ (r : ClassRole). r.can_receive_dms)
            (λ (r : ClassRole). r.is_messaging_restricted) (a ∷ as') all,
      )
      | inr not_all ↦ rw (not_all) (
        any-filter (λ (r : ClassRole). r.can_initiate_dms)
            (λ (r : ClassRole). not r.is_messaging_restricted) (a ∷ as'),
        any-filter (λ (r : ClassRole). r.can_receive_dms)
            (λ (r : ClassRole). not r.is_messaging_restricted) (a ∷ as'),
      )
    ]

-- A student may initiate direct messages exactly if one of the student's current class roles of the
-- year is not restricted and may initiate; likewise for receiving them.
pub student_flags_eq :
    (user_id year : ℕ) (db : ChatDb)
    → ((get_student_dm_flags user_id year db).can_initiate
        ≡ any
            (λ (r : ClassRole).
              holds_role user_id year r && (not r.is_messaging_restricted && r.can_initiate_dms))
            db.class_roles)
      × ((get_student_dm_flags user_id year db).can_receive
          ≡ any
              (λ (r : ClassRole).
                holds_role user_id year r && (not r.is_messaging_restricted && r.can_receive_dms))
              db.class_roles)
unfolding get_student_dm_flags
student_flags_eq user_id year db =
    let eqs = flags_of-eq (filter (holds_role user_id year) db.class_roles) in
    (
      eqs.0 ∙ any-filter _ (holds_role user_id year) db.class_roles,
      eqs.1 ∙ any-filter _ (holds_role user_id year) db.class_roles,
    )
