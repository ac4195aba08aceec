-- ===== src/Upload/Tests.antt =====
-- One upload of seven bytes, from its creation to its file record, as a run of the step relation.
use text.Mathlib.Text.{◌==◌ as str_eq}
use mothercare_backend.Prelude.{
  ◌≡◌, refl, String, none, some, true, false, [], ◌∷◌, ◌++◌, ◌≢◌, ◌↔◌, if◌then◌else◌, arith, inl,
}
use mothercare_backend.Prelude.Int.{pos}
use mothercare_backend.Upload.Status.{
  cancelled, completing, completed, expired, is_terminal_status, is_valid_transition,
}
use mothercare_backend.Upload.Db.{Session, FileRecord, Db, put, put_session, put_parts}
use mothercare_backend.Upload.Result.{Result, ok}
use mothercare_backend.Upload.Session.{cancel_session, find_owned, serialize, effective_status}
use mothercare_backend.Upload.Create.{NewSession, row_of, inserted, insert_session, create_session}
use mothercare_backend.Upload.Transfer.{
  Storage, Numeric, int, other, part_of, advanced, check_chunk, transfer_tx, transfer_chunk,
  assert_parts_cover, total_size, ChunkRequest,
}
use mothercare_backend.Upload.Finalize.{
  check_finalize, claim, commit_finalize, committed, after_claim, finalize_session,
}
use mothercare_backend.Upload.Invariant.{
  SoundOrCleared, unfilled-IsSound, Later, Accepted, check_chunk_iff,
}
use mothercare_backend.Upload.Ledger.{Ledger, assert_parts_cover_iff}
use mothercare_backend.Upload.Steps.{
  Sys, Step, Reach, start, create, read, chunk, win, commit, here, next, files_of,
}
use mothercare_backend.Upload.Steps.Moves.{Claims, completed_row}
use mothercare_backend.Upload.Steps.Safety.{Reach-IsSound, Reach-HasFiles, Reach-Claims}
use mothercare_backend.Upload.Carried.{Carries, HasRecord}
use mothercare_backend.Upload.Steps.Transitions.{Step-Follows, Follows, terminal_forever}
use mothercare_backend.Upload.Protocol.{willing, client-Arrived, Arrived, client}
use mothercare_backend.Upload.Answers.{TransferOutcome, transfer_chunk-TransferOutcome}
use mothercare_backend.Upload.Mime.{type_passes}
use mothercare_backend.Upload.Finalize.{Linked}
use mothercare_backend.Upload.Complete.{Assembly, check_complete, judge, complete_upload_session}
use mothercare_backend.Upload.Cancelled.{CancelOutcome, cancel_session-CancelOutcome}
use mothercare_backend.Upload.Verified.{Completion, complete_verified}
use mothercare_backend.Upload.Replay.{
  create_session-again, finalize_session-twice, completing_reads_expired,
}

abbrev photo : NewSession
photo = record {
  user_id = 5;
  idempotency_key = 11;
  purpose = "image";
  original_filename = "cat.png";
  mime_type = "image/png";
  expected_size = 7;
  entity_type = some "chat";
  entity_id = none;
  room_id = some 21;
  academic_year_id = none;
  metadata = some (λ k. if str_eq k "durationSeconds" then some 12 else none);
  storage_key = 3;
  expires_at = 100;
  now = 1;
}

abbrev provider_answers : Storage
provider_answers = willing (λ key mime. 8) (λ key upload number len. 9)

abbrev sent_row : Session
sent_row = advanced 2 8 0 7 (row_of photo)

abbrev busy_row : Session
busy_row = record sent_row { status = completing; last_activity_at = 3 }

abbrev created_db : Db
created_db = inserted photo start.db

abbrev sent_db : Db
sent_db = put_parts 0 (part_of 1 9 7 ∷ []) (put_session 0 sent_row created_db)

abbrev busy_db : Db
busy_db = put_session 0 busy_row sent_db

abbrev sys_created : Sys
sys_created = record start { db = created_db }

abbrev sys_seen : Sys
sys_seen = record sys_created { reads = put 0 (row_of photo ∷ []) sys_created.reads }

abbrev sys_sent : Sys
sys_sent = record sys_seen { db = sent_db }

abbrev sys_ready : Sys
sys_ready = record sys_sent { reads = put 0 (sent_row ∷ row_of photo ∷ []) sys_sent.reads }

abbrev sys_busy : Sys
sys_busy = record sys_ready { db = busy_db; claims = put 0 (sent_row ∷ []) sys_ready.claims }

abbrev sys_done : Sys
sys_done = record sys_busy {
  db = committed 4 0 sent_row busy_row busy_db;
  claims = put 0 [] sys_busy.claims;
}

creating : Step start sys_created
unfolding insert_session
creating = create photo created_db (omega arith) refl

seeing : Step sys_created sys_seen
seeing = read 0 (row_of photo) refl

sending : Step sys_seen sys_sent
unfolding check_chunk transfer_tx
sending =
    chunk 2 2 0 5 0 7 1 7 provider_answers (row_of photo) sent_db (inl refl) (omega arith) refl refl

seeing_again : Step sys_sent sys_ready
seeing_again = read 0 sent_row refl

winning : Step sys_ready sys_busy
unfolding check_finalize claim
winning = win 3 0 sent_row busy_db (inl refl) refl refl

committing : Step sys_busy sys_done
unfolding commit_finalize
committing = commit 4 0 sent_row [] sys_done.db refl refl

to_created : Reach start sys_created
to_created = next here creating

to_sent : Reach start sys_sent
to_sent = next (next to_created seeing) sending

to_busy : Reach start sys_busy
to_busy = next (next to_sent seeing_again) winning

to_done : Reach start sys_done
to_done = next to_busy committing

Reach-IsSound_example : SoundOrCleared sent_row (part_of 1 9 7 ∷ [])
Reach-IsSound_example = Reach-IsSound to_sent 0 refl

Reach-HasFiles_example : HasRecord 0 (completed_row 4 1 busy_row) (files_of 0 sys_done.db.files)
Reach-HasFiles_example = Reach-HasFiles to_done 0 refl

Reach-Claims_example : Claims busy_row (sent_row ∷ [])
Reach-Claims_example = Reach-Claims to_busy 0 refl

Step-Follows_example : Follows sent_row (some busy_row)
Step-Follows_example = Step-Follows (next to_sent seeing_again) winning 0 refl

terminal_forever_example :
    (t : Session) × (sys_done.db.sessions 0 ≡ some t)
    × (t.status ≡ completed)
    × Later (completed_row 4 1 busy_row) t
unfolding is_terminal_status
terminal_forever_example = terminal_forever to_done here 0 refl refl

client-Arrived_example :
    Arrived
      (λ key mime. 8)
      (λ key upload number len. 9)
      2
      0
      5
      (row_of photo)
      (client (λ key mime. 8) (λ key upload number len. 9) 2 0 5 1 created_db)
client-Arrived_example =
    client-Arrived (λ key mime. 8) (λ key upload number len. 9) 2 0 5 1 (row_of photo) created_db
      refl refl refl (omega arith)
      (unfilled-IsSound (row_of photo) [] (Reach-IsSound to_created 0 refl) (omega arith))
      (omega arith)

check_chunk_iff_example :
    (check_chunk 2 (row_of photo) 0 7 ≡ ok 1) ↔ Accepted 2 (row_of photo) 0 7 1
check_chunk_iff_example = check_chunk_iff 2 (row_of photo) 0 7 1

assert_parts_cover_iff_example : (assert_parts_cover (part_of 1 9 7 ∷ []) 7 ≡ ok tt) ↔ (
    (part_of 1 9 7 ∷ [] ≢ [])
    × Ledger 0 (part_of 1 9 7 ∷ [])
    × (total_size (part_of 1 9 7 ∷ []) ≡ 7))
assert_parts_cover_iff_example = assert_parts_cover_iff (part_of 1 9 7 ∷ []) 7

-- A reading of the two headers of the example.
abbrev reads_as : String → Numeric
reads_as s = if str_eq s "0" then int (pos 0) else if str_eq s "7" then int (pos 7) else other

abbrev chunk_request : ChunkRequest
chunk_request = record {
  session_id = 0;
  user_id = some 5;
  offset_header = some "0";
  content_length_header = some "7";
}

transfer_chunk-TransferOutcome_example :
    TransferOutcome reads_as 2 2 chunk_request created_db created_db
      (transfer_chunk reads_as 2 2 chunk_request true provider_answers created_db created_db)
transfer_chunk-TransferOutcome_example =
    transfer_chunk-TransferOutcome reads_as 2 2 chunk_request true provider_answers created_db
      created_db

create_session-again_example :
    create_session photo sent_db
    ≡ (ok (record { id = 0; session = serialize 1 sent_row; created = false }), sent_db)
unfolding create_session insert_session
create_session-again_example =
    create_session-again photo photo start.db refl refl refl sent_db sent_row index refl
  where
    index : sent_db.by_key 5 11 ≡ (create_session photo start.db).1.by_key 5 11
    index = refl

finalize_session-twice_example :
    let (first, db') = finalize_session 3 0 (some 5) true (λ _. sent_db) sent_db sent_db in
    let (second, db'') = finalize_session 9 0 (some 5) true (λ _. db') db' db' in
    (first ≡ ok (record { session = serialize 3 (completed_row 3 1 sent_row); created = true }))
    × ((f : FileRecord) × (db'.files ≡ [] ++ (1, f) ∷ []) × Carries 0 sent_row f)
    × (second ≡ ok (record { session = serialize 9 (completed_row 3 1 sent_row); created = false }))
    × (db'' ≡ db')
finalize_session-twice_example =
    finalize_session-twice 3 9 0 5 (λ _. sent_db)
      (λ _. (finalize_session 3 0 (some 5) true (λ _. sent_db) sent_db sent_db).1) true sent_db
      sent_row refl refl refl refl refl

completing_reads_expired_example :
    (effective_status 200 busy_row ≡ expired)
    × (is_terminal_status expired ≡ true)
    × (is_valid_transition completing expired ≡ false)
    × ((after_claim 200 0 sent_row true busy_db).0
        ≡ ok (record { session = serialize 200 (completed_row 200 1 busy_row); created = true }))
completing_reads_expired_example =
    completing_reads_expired 200 0 sent_row busy_db busy_row refl refl (omega arith)

abbrev assembly : Assembly
assembly = record {
  complete_upload = λ key upload parts. ok tt;
  stat_object = λ key. ok (some 7);
  sniff_prefix = λ key. ok (some "image/png");
  parks = true;
  clears = true;
}

abbrev completion : Result Linked × Db
completion =
    complete_upload_session 3 0 (some 5) assembly true (λ _. sent_db) sent_db sent_db sent_db

abbrev photo_linked : Linked
photo_linked = record { session = serialize 3 (completed_row 3 1 sent_row); created = true }

completion_links : completion ≡ (ok photo_linked, completion.1)
unfolding complete_upload_session check_complete assert_parts_cover judge type_passes
    finalize_session check_finalize claim after_claim commit_finalize find_owned
completion_links = refl

complete_verified_example :
    (s : Session) × (sent_db.sessions 0 ≡ some s)
    × (s.user_id ≡ 5)
    × Completion 3 0 5 assembly true
        (λ _. sent_db)
        sent_db
        sent_db
        sent_db
        s
        photo_linked
        completion.1
complete_verified_example =
    complete_verified 3 0 5 assembly true (λ _. sent_db) sent_db sent_db sent_db photo_linked
      completion.1 completion_links

cancel_session-CancelOutcome_example :
    CancelOutcome true 3 0
      (some 5)
      created_db
      sent_db
      (cancel_session true 3 0 (some 5) created_db sent_db)
cancel_session-CancelOutcome_example =
    cancel_session-CancelOutcome true 3 0 (some 5) created_db sent_db

-- A chunk that ran in between does not keep the session from being cancelled.
cancelled_after_chunk :
    ((cancel_session true 3 0 (some 5) created_db sent_db).1.sessions 0
      ≡ some (record sent_row { status = cancelled; last_activity_at = 3 }))
    × ((cancel_session true 3 0 (some 5) created_db sent_db).1.parts 0 ≡ [])
unfolding cancel_session
cancelled_after_chunk = (refl, refl)
