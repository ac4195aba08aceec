-- ===== src/Upload/Cancelled.antt =====
-- What a cancellation comes to when other requests run between its read and its write.
use mothercare_backend.Prelude.{
  ℕ, ◌≡◌, refl, ap, ◌∙◌, Option, none, some, Bool, true, false, [], ◌∷◌, inl, inr, Bool-cases,
  Option-cases, ==_iff, arith, if◌then◌else◌,
}
use mothercare_backend.Upload.Status.{initiated, uploading, cancelled, includes}
use mothercare_backend.Upload.Db.{Session, Db, put_session, put_parts}
use mothercare_backend.Upload.Result.{Result, ok, err, Result-cases, unavailable, already}
use mothercare_backend.Upload.Session.{
  View, serialize, answer_cancel, check_cancel, cancel_session, release_storage, update_status,
}
use mothercare_backend.Upload.Steps.Inversion.{update_status_hit, update_status_miss}

abbrev pub cancelled_row : ℕ → Session → Session
cancelled_row now s = record s { status = cancelled; last_activity_at = now }

-- The database without the ledger of a session, where its deletion is accepted.
abbrev pub without_parts : Bool → ℕ → Db → Db
without_parts true id db = put_parts id [] db
without_parts false id db = db

release_storage-without_parts :
    (clears : Bool) (id : ℕ) (db : Db) → release_storage clears id db ≡ without_parts clears id db
unfolding release_storage
release_storage-without_parts true id db = refl
release_storage-without_parts false id db = refl

-- An answer with an error leaves the database as it is; one with a view passed the checks on the
-- row read first, and cancelled the row that it found open.
abbrev pub CancelOutcome : Bool → ℕ → ℕ → Option ℕ → Db → Db → Result View × Db → Type 0
CancelOutcome clears now id user seen db (err e, db') = db' ≡ db
CancelOutcome clears now id user seen db (ok view, db') =
    (check_cancel now id user seen ≡ ok tt)
    × (s : Session) × (db.sessions id ≡ some s)
    × (includes (initiated ∷ uploading ∷ []) s.status ≡ true)
    × (view ≡ serialize now (cancelled_row now s))
    × (db' ≡ without_parts clears id (put_session id (cancelled_row now s) db))

update_status_gone :
    (now id : ℕ) (db : Db)
    → db.sessions id ≡ none
    → update_status now id (initiated ∷ uploading ∷ []) cancelled db ≡ (false, db)
unfolding update_status
update_status_gone now id db missing = rw (missing, update_status) refl

answered_gone :
    (clears : Bool) (now id : ℕ) (matched : Bool) (db : Db)
    → db.sessions id ≡ none
    → answer_cancel clears now id matched db ≡ (err unavailable, db)
answered_gone clears now id matched db missing = ground arith

answered :
    (clears : Bool) (now id : ℕ) (matched : Bool) (db : Db) (s : Session)
    → db.sessions id ≡ some s
    → answer_cancel clears now id matched db ≡ (
        if matched
        then (ok (serialize now s), release_storage clears id db)
        else (err (already s.status), db))
answered clears now id matched db s found = ground arith

put_here : (id : ℕ) (s : Session) (db : Db) → (put_session id s db).sessions id ≡ some s
put_here id s db = rw ((==_iff id id).1 refl) refl

module _ (clears : Bool) (now id : ℕ) (user : Option ℕ) (seen db : Db)
    (passed : check_cancel now id user seen ≡ ok tt) where
  cancel_gone :
      db.sessions id ≡ none → cancel_session clears now id user seen db ≡ (err unavailable, db)
  unfolding cancel_session
  cancel_gone missing =
      rw (passed, update_status_gone now id db missing, cancel_session)
        (answered_gone clears now id false db missing)

  cancel_hit :
      (s : Session)
      → db.sessions id ≡ some s
      → includes (initiated ∷ uploading ∷ []) s.status ≡ true
      → cancel_session clears now id user seen db ≡ (
        ok (serialize now (cancelled_row now s)),
        without_parts clears id (put_session id (cancelled_row now s) db),
      )
  unfolding cancel_session release_storage
  cancel_hit s found hit =
      rw
        (
          passed,
          update_status_hit now id (initiated ∷ uploading ∷ []) cancelled db s found hit,
          cancel_session,
        )
        (answered clears now id true (put_session id (cancelled_row now s) db) (cancelled_row now s)
            (put_here id (cancelled_row now s) db)
          ∙ ap (λ d. (ok (serialize now (cancelled_row now s)), d))
              (release_storage-without_parts clears id (put_session id (cancelled_row now s) db)))

  cancel_miss :
      (s : Session)
      → db.sessions id ≡ some s
      → includes (initiated ∷ uploading ∷ []) s.status ≡ false
      → cancel_session clears now id user seen db ≡ (err (already s.status), db)
  unfolding cancel_session
  cancel_miss s found miss =
      rw
        (
          passed,
          update_status_miss now id (initiated ∷ uploading ∷ []) cancelled db s found miss,
          cancel_session,
        )
        (answered clears now id false db s found)

-- A request to cancel that is answered with an error changes nothing. One that succeeds passed the
-- checks on the row that it read, and found the session untouched or uploading at its write: it
-- cancels exactly that row and drops its part ledger, if the database accepts the deletion, whose
-- failure is swallowed.
pub cancel_session-CancelOutcome :
    (clears : Bool) (now id : ℕ) (user : Option ℕ) (seen db : Db)
    → CancelOutcome clears now id user seen db (cancel_session clears now id user seen db)
unfolding cancel_session
cancel_session-CancelOutcome clears now id user seen db =
    elim (Result-cases (check_cancel now id user seen)) [
      | inl (e, refused) ↦ rw (refused, cancel_session) refl
      | inr (u, passed) ↦ elim (Option-cases (db.sessions id)) [
        | inl missing ↦ rw (cancel_gone clears now id user seen db passed missing) refl
        | inr (s, found) ↦ elim (Bool-cases (includes (initiated ∷ uploading ∷ []) s.status)) [
          | inl hit ↦
              rw (cancel_hit clears now id user seen db passed s found hit)
                (passed, s, found, hit, refl, refl)
          | inr miss ↦ rw (cancel_miss clears now id user seen db passed s found miss) refl
        ]
      ]
    ]
