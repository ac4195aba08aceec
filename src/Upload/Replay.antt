-- ===== src/Upload/Replay.antt =====
-- Requests that are sent again after a lost answer.
use mothercare_backend.Prelude.{
  ℕ, ◌≤◌, ◌≡◌, refl, none, some, Bool, true, false, [], ◌∷◌, ◌++◌, arith, ==_iff, ap, leb,
}
use mothercare_backend.Upload.Status.{
  uploading, completing, completed, expired, is_terminal_status, is_valid_transition,
}
use mothercare_backend.Upload.Db.{Session, FileRecord, Db, put, put_session}
use mothercare_backend.Upload.Result.{Result, ok, err, database}
use mothercare_backend.Upload.Session.{serialize, effective_status, find_owned-ok}
use mothercare_backend.Upload.Create.{
  NewSession, inserted, insert_session, reuse_session, create_session,
}
use mothercare_backend.Upload.Finalize.{
  Linked, check_finalize, claim, commit_finalize, after_claim, finalize_session, file_of, committed,
}
use mothercare_backend.Upload.Carried.{Carries, file_of-Carries}
use mothercare_backend.Upload.Steps.Inversion.{update_status_hit}
use mothercare_backend.Upload.Steps.Moves.{completed_row}

insert_free :
    (n : NewSession) (db : Db)
    → db.by_key n.user_id n.idempotency_key ≡ none
    → insert_session n db ≡ ok (inserted n db)
unfolding insert_session
insert_free n db unused = rw (unused, insert_session)

-- A repeated create: whatever it asks for, whatever the row has become and whatever other sessions
-- were created meanwhile, a second request of the same user with the same idempotency key gets the same
-- session, with the progress that it has, and no row is added, provided that the row is still there and
-- the index still has its entry.
pub create_session-again :
    (n again : NewSession) (db : Db)
    → db.by_key n.user_id n.idempotency_key ≡ none
    → again.user_id ≡ n.user_id
    → again.idempotency_key ≡ n.idempotency_key
    → (later : Db) (s : Session)
    → later.by_key n.user_id n.idempotency_key
      ≡ (create_session n db).1.by_key n.user_id n.idempotency_key
    → later.sessions db.next_id ≡ some s
    → create_session again later
      ≡ (ok (record { id = db.next_id; session = serialize again.now s; created = false }), later)
unfolding create_session insert_session reuse_session
create_session-again n again db unused same_user same_key later s index found =
    rw (refused, reused, create_session)
  where
    taken : later.by_key again.user_id again.idempotency_key ≡ some db.next_id
    taken = rw (same_user, same_key, index, insert_free n db unused, create_session) (ground arith)

    refused : insert_session again later ≡ err database
    refused = rw (taken, insert_session)

    reused :
        reuse_session again later
        ≡ ok (record { id = db.next_id; session = serialize again.now s; created = false })
    reused = rw (taken, found, reuse_session)

put_here : {A : Type 0} (id : ℕ) (v : A) (t : ℕ → A) → put id v t id ≡ v
put_here id v t = rw ((==_iff id id).1 refl)

after_claim-committed :
    (now id : ℕ) (seen s : Session) (db : Db)
    → db.sessions id ≡ some s
    → after_claim now id seen true db ≡ (
      ok (record { session = serialize now (completed_row now db.next_id s); created = true }),
      committed now id seen s db,
    )
unfolding after_claim commit_finalize
after_claim-committed now id seen s db found =
    rw (found, commit_finalize, after_claim) (rw ((==_iff id id).1 refl, after_claim) refl)

finalizable :
    (now : ℕ) (s : Session)
    → s.status ≡ uploading
    → leb s.expires_at now ≡ false
    → s.bytes_uploaded ≡ s.expected_size
    → check_finalize now s ≡ ok none
unfolding check_finalize
finalizable now s up fresh full = ground arith

abbrev claimed_row : ℕ → Session → Session
claimed_row now s = record s { status = completing; last_activity_at = now }

-- The database after a finalize of the row `s`.
abbrev linked_db : ℕ → ℕ → Session → Db → Db
linked_db now id s db =
    committed now id s (claimed_row now s) (put_session id (claimed_row now s) db)

finalize_session-linked :
    (now id user : ℕ) (polls : ℕ → Db) (db : Db) (s : Session)
    → db.sessions id ≡ some s
    → s.user_id ≡ user
    → s.status ≡ uploading
    → leb s.expires_at now ≡ false
    → s.bytes_uploaded ≡ s.expected_size
    → finalize_session now id (some user) true polls db db ≡ (
      ok (record { session = serialize now (completed_row now db.next_id s); created = true }),
      linked_db now id s db,
    )
unfolding finalize_session claim
finalize_session-linked now id user polls db s found owner up fresh full =
    rw
      (
        find_owned-ok id user db s found owner,
        finalizable now s up fresh full,
        update_status_hit now id (uploading ∷ []) completing db s found (rw up refl),
        finalize_session,
      )
      (after_claim-committed now id s (claimed_row now s) (put_session id (claimed_row now s) db)
        (put_here id (some (claimed_row now s)) db.sessions))

finalize_session-replay :
    (now id user : ℕ) (polls : ℕ → Db) (commits : Bool) (db : Db) (s : Session)
    → db.sessions id ≡ some s
    → s.user_id ≡ user
    → s.status ≡ completed
    → finalize_session now id (some user) commits polls db db
      ≡ (ok (record { session = serialize now s; created = false }), db)
unfolding finalize_session check_finalize
finalize_session-replay now id user polls commits db s found owner done =
    rw (find_owned-ok id user db s found owner, finalize_session) (ground arith)

-- While a session is byte-full, open and unexpired, its owner's finalize links one file record that
-- carries what the row says of the file, its metadata included, and completes the session; a second
-- finalize, at any later time, answers with the same link and changes nothing.
pub finalize_session-twice :
    (now now' id user : ℕ) (polls polls' : ℕ → Db) (commits : Bool) (db : Db) (s : Session)
    → db.sessions id ≡ some s
    → s.user_id ≡ user
    → s.status ≡ uploading
    → leb s.expires_at now ≡ false
    → s.bytes_uploaded ≡ s.expected_size
    → let (first, db') = finalize_session now id (some user) true polls db db in
      let (second, db'') = finalize_session now' id (some user) commits polls' db' db' in
      (first
        ≡ ok (record { session = serialize now (completed_row now db.next_id s); created = true }))
      × ((f : FileRecord) × (db'.files ≡ db.files ++ (db.next_id, f) ∷ []) × Carries id s f)
      × (second
          ≡ ok (record {
            session = serialize now' (completed_row now db.next_id s);
            created = false;
          }))
      × (db'' ≡ db')
finalize_session-twice now now' id user polls polls' commits db s found owner up fresh full =
    rw (finalize_session-linked now id user polls db s found owner up fresh full, second)
      (refl, (file_of id s, refl, file_of-Carries id s), refl, refl)
  where
    row : (linked_db now id s db).sessions id ≡ some (completed_row now db.next_id s)
    row =
        put_here id (some (completed_row now db.next_id s))
          (put_session id (claimed_row now s) db).sessions

    second :
        finalize_session now' id
          (some user)
          commits
          polls'
          (linked_db now id s db)
          (linked_db now id s db)
        ≡ (
          ok (record {
            session = serialize now' (completed_row now db.next_id s);
            created = false;
          }),
          linked_db now id s db,
        )
    second =
        finalize_session-replay now' id user polls' commits (linked_db now id s db)
          (completed_row now db.next_id s) row owner refl

-- A session in its finalization reads as EXPIRED once its clock has passed, a terminal status that
-- COMPLETING has no transition to, although its commit still completes it.
pub completing_reads_expired :
    (now id : ℕ) (seen : Session) (db : Db) (s : Session)
    → db.sessions id ≡ some s
    → s.status ≡ completing
    → s.expires_at ≤ now
    → (effective_status now s ≡ expired)
      × (is_terminal_status expired ≡ true)
      × (is_valid_transition completing expired ≡ false)
      × ((after_claim now id seen true db).0
          ≡ ok
              (record { session = serialize now (completed_row now db.next_id s); created = true }))
unfolding effective_status is_terminal_status is_valid_transition after_claim commit_finalize
completing_reads_expired now id seen db s found busy late = (
  ground arith,
  refl,
  refl,
  ap (λ (r : Result Linked × Db). r.0) (after_claim-committed now id seen s db found),
)
