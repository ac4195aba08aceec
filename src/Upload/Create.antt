-- ===== src/Upload/Create.antt =====
-- `createSession` of upload-session.service.ts, behind the validation of its input: the insert, and
-- the idempotent replay that the unique index on [userId, idempotencyKey] forces.
use mothercare_backend.Prelude.{
  ℕ, ◌+◌, String, Option, none, some, Bool, ◌≡◌, inl, inr, arith, Option-cases, ◌==◌, if◌then◌else◌,
}
use mothercare_backend.Upload.Status.{initiated}
use mothercare_backend.Upload.Db.{Session, Metadata, Db, put}
use mothercare_backend.Upload.Result.{Result, ok, err, database}
use mothercare_backend.Upload.Session.{View, serialize}

-- A validated request, with the object key and the expiry that the service computes for it.
pub record NewSession : Type 0 where
  pub user_id : ℕ
  pub idempotency_key : ℕ
  pub purpose : String
  pub original_filename : String
  pub mime_type : String
  pub expected_size : ℕ
  pub entity_type : Option String
  pub entity_id : Option ℕ
  pub room_id : Option ℕ
  pub academic_year_id : Option ℕ
  pub metadata : Option Metadata
  pub storage_key : ℕ
  pub expires_at : ℕ
  pub now : ℕ

abbrev pub row_of : NewSession → Session
row_of n = record {
  user_id = n.user_id;
  status = initiated;
  purpose = n.purpose;
  original_filename = n.original_filename;
  mime_type = n.mime_type;
  expected_size = n.expected_size;
  bytes_uploaded = 0;
  storage_key = n.storage_key;
  provider_upload_id = none;
  file_record_id = none;
  entity_type = n.entity_type;
  entity_id = n.entity_id;
  room_id = n.room_id;
  academic_year_id = n.academic_year_id;
  metadata = n.metadata;
  retry_count = 0;
  last_activity_at = n.now;
  expires_at = n.expires_at;
}

abbrev pub put_key : ℕ → ℕ → ℕ → (ℕ → ℕ → Option ℕ) → ℕ → ℕ → Option ℕ
put_key user key id index u k =
    if u == user then if k == key then some id else index u k else index u k

abbrev pub inserted : NewSession → Db → Db
inserted n db = record db {
  sessions = put db.next_id (some (row_of n)) db.sessions;
  by_key = put_key n.user_id n.idempotency_key db.next_id db.by_key;
  next_id = db.next_id + 1;
}

-- `uploadSession.create`: the unique index refuses a second row of a user and key (P2002).
unfoldable pub insert_session : NewSession → Db → Result Db
insert_session n db = elim (db.by_key n.user_id n.idempotency_key) [
  | some taken ↦ err database
  | none ↦ ok (inserted n db)
]

-- The answer `{ session, created }`, with the row's id.
pub record Created : Type 0 where
  pub id : ℕ
  pub session : View
  pub created : Bool

-- After P2002: the winner's row is read and returned.
unfoldable pub reuse_session : NewSession → Db → Result Created
reuse_session n db = elim (db.by_key n.user_id n.idempotency_key) [
  | none ↦ err database
  | some id ↦ elim (db.sessions id) [
    | none ↦ err database
    | some s ↦ ok (record { id = id; session = serialize n.now s; created = Bool.false })
  ]
]

-- `createSession`, behind its validation
unfoldable pub create_session : NewSession → Db → Result Created × Db
unfolding insert_session reuse_session
create_session n db = elim (insert_session n db) [
  | err e ↦ (reuse_session n db, db)
  | ok db' ↦ (
    ok (record { id = db.next_id; session = serialize n.now (row_of n); created = Bool.true }),
    db',
  )
]

pub insert_session-inserted :
    (n : NewSession) (db db' : Db) → insert_session n db ≡ ok db' → db' ≡ inserted n db
unfolding insert_session
insert_session-inserted n db db' h = elim (Option-cases (db.by_key n.user_id n.idempotency_key)) [
  | inl unused ↦ ground arith
  | inr (id, taken) ↦ ground arith
]
