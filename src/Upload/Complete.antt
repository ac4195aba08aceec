-- ===== src/Upload/Complete.antt =====
-- `completeUploadSession` of upload-transfer.service.ts: the ledger is checked, the provider
-- assembles the object, its size and type are verified, and the session is finalized.
use mothercare_backend.Prelude.{
  ℕ, String, Option, none, some, Bool, true, false, [], ◌∷◌, List, ◌==◌, if◌then◌else◌, not,
}
use mothercare_backend.Upload.Status.{uploading, completed, failed, same}
use mothercare_backend.Upload.Db.{Session, Part, Db, put_parts}
use mothercare_backend.Upload.Result.{
  Error, Result, ok, err, ◌>>◌, guard, unauthenticated, session_expired, nothing_to_complete,
  incomplete, no_provider_upload, completion_failed, verification_failed, sniff_failed,
  type_refused, provider,
}
use mothercare_backend.Upload.Session.{serialize, is_session_expired, find_owned, update_status}
use mothercare_backend.Upload.Finalize.{Linked, finalize_session}
use mothercare_backend.Upload.Transfer.{assert_parts_cover}
use mothercare_backend.Upload.Mime.{type_passes}

-- The answers during a completion: the provider's on the assembly, on the object's size (`none` if it
-- is absent) and on the type that its first bytes show, and whether the database accepts the
-- writes whose errors are swallowed: that of the status in `failSession`, and the deletion of the ledger.
pub record Assembly : Type 0 where
  pub complete_upload : ℕ → ℕ → List Part → Result (Unit {0})
  pub stat_object : ℕ → Result (Option ℕ)
  pub sniff_prefix : ℕ → Result (Option String)
  pub parks : Bool
  pub clears : Bool

-- `failSession`: its `updateMany`, and then its `deleteMany`, whatever became of the first.
unfoldable pub fail_session : Bool → Bool → ℕ → ℕ → Db → Db
unfolding update_status
fail_session parks clears now id db =
    let db' = if parks then (update_status now id (uploading ∷ []) failed db).1 else db in
    if clears then put_parts id [] db' else db'

-- The checks of `completeUploadSession` on the row: `some` is the replay of a completed session, and
-- otherwise the provider's upload id comes back.
pub data Ready : Type 0 where
  replay : Linked → Ready
  assemble : ℕ → Ready

unfoldable pub check_complete : ℕ → Session → Result Ready
unfolding is_session_expired
check_complete now s =
    if same s.status completed
    then ok (replay (record { session = serialize now s; created = false }))
    else do
      guard (not (is_session_expired now s)) session_expired
      guard (same s.status uploading) nothing_to_complete
      guard (s.bytes_uploaded == s.expected_size) (incomplete s.bytes_uploaded s.expected_size)
      elim s.provider_upload_id [
        | none ↦ err no_provider_upload
        | some upload ↦ ok (assemble upload)
      ]

-- What the assembly and the two verifications come to.
pub data Verdict : Type 0 where
  sound : Verdict
  -- The request fails, the session stays as it is.
  retry : Error → Verdict
  -- The session is parked as failed.
  refuse : Error → Verdict

abbrev pub judge_type : Session → Result (Option String) → Verdict
judge_type s (err (provider true)) = retry sniff_failed
judge_type s (err e) = refuse sniff_failed
judge_type s (ok sniffed) =
    if type_passes sniffed s.purpose s.original_filename s.mime_type
    then sound
    else refuse type_refused

abbrev pub judge_size : Session → Result (Option ℕ) → Verdict → Verdict
judge_size s (err e) next = retry verification_failed
judge_size s (ok none) next = retry verification_failed
judge_size s (ok (some size)) next =
    if size == s.expected_size then next else refuse verification_failed

unfoldable pub judge : Assembly → ℕ → List Part → Session → Verdict
judge a upload parts s = elim (a.complete_upload s.storage_key upload parts) [
  | err e ↦ retry completion_failed
  | ok _ ↦ judge_size s (a.stat_object s.storage_key) (judge_type s (a.sniff_prefix s.storage_key))
]

-- Step 4: the session is finalized, and after that the ledger rows are dropped, if their deletion is
-- accepted.
abbrev pub link : Bool → ℕ → Result Linked × Db → Result Linked × Db
link clears id (err e, db) = (err e, db)
link clears id (ok linked, db) = (ok linked, if clears then put_parts id [] db else db)

-- `completeUploadSession`. `seen` is the database at its first reads, `mid` the one at the first
-- read of its finalization, `db` the one at the first write.
unfoldable pub complete_upload_session :
    ℕ → ℕ → Option ℕ → Assembly → Bool → (ℕ → Db) → Db → Db → Db → Result Linked × Db
complete_upload_session now id none a commits polls seen mid db = (err unauthenticated, db)
complete_upload_session now id (some user) a commits polls seen mid db =
    elim (find_owned id user seen) [
      | err e ↦ (err e, db)
      | ok s ↦ elim (check_complete now s) [
        | err e ↦ (err e, db)
        | ok (replay linked) ↦ (ok linked, db)
        | ok (assemble upload) ↦ elim (assert_parts_cover (seen.parts id) s.expected_size) [
          | err e ↦ (err e, db)
          | ok _ ↦ elim (judge a upload (seen.parts id) s) [
            | retry e ↦ (err e, db)
            | refuse e ↦ (err e, fail_session a.parks a.clears now id db)
            | sound ↦ link a.clears id (finalize_session now id (some user) commits polls mid db)
          ]
        ]
      ]
    ]
