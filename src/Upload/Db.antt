-- ===== src/Upload/Db.antt =====
-- The tables that the upload services read and write (prisma/schema.prisma). Ids, object keys, etags
-- and idempotency keys are only compared, so they are numbers; a table is a function of its key.
use mothercare_backend.Prelude.{ℕ, String, Option, some, List, [], ◌∷◌, ◌==◌, ltb, if◌then◌else◌}
use mothercare_backend.Upload.Status.{Status}

-- A JSON object: its entries, whose values are only copied and are numbers like the ids.
abbrev pub Metadata : Type 0
Metadata = String → Option ℕ

-- `model UploadSession`, without the columns that the two services neither decide by nor copy
-- (`providerState`, `checksum`, `createdAt`, `updatedAt`). An id of a room, year or entity is not empty.
pub record Session : Type 0 where
  pub user_id : ℕ
  pub status : Status
  pub purpose : String
  pub original_filename : String
  pub mime_type : String
  pub expected_size : ℕ
  pub bytes_uploaded : ℕ
  pub storage_key : ℕ
  pub provider_upload_id : Option ℕ
  pub file_record_id : Option ℕ
  pub entity_type : Option String
  pub entity_id : Option ℕ
  pub room_id : Option ℕ
  pub academic_year_id : Option ℕ
  pub metadata : Option Metadata
  pub retry_count : ℕ
  pub last_activity_at : ℕ
  pub expires_at : ℕ

-- `model UploadSessionPart`, without its session's id.
pub record Part : Type 0 where
  pub part_number : ℕ
  pub etag : ℕ
  pub size : ℕ

-- `model FileRecord`, the columns that a finalized session fills from its row. Two are left out:
-- `storageBucket`, a constant of the configuration, and `publicUrl`, which is made of the record's id.
-- `upload_session_id` is the entry `uploadSessionId` of the column `metadata`, by which a record is found.
pub record FileRecord : Type 0 where
  pub original_name : String
  pub storage_path : ℕ
  pub purpose : String
  pub mime_type : String
  pub size : ℕ
  pub uploaded_by_id : ℕ
  pub upload_session_id : ℕ
  pub entity_type : Option String
  pub entity_id : Option ℕ
  pub metadata : Metadata

-- `by_key` is the unique index on [userId, idempotencyKey]; `next_id` is an id that no row has yet.
pub record Db : Type 0 where
  pub sessions : ℕ → Option Session
  pub parts : ℕ → List Part
  pub files : List (ℕ × FileRecord)
  pub by_key : ℕ → ℕ → Option ℕ
  pub next_id : ℕ

module _ {ℓ} {A : Type ℓ} where
  -- The table with the row of `k` replaced.
  abbrev pub put : ℕ → A → (ℕ → A) → ℕ → A
  put k v t j = if j == k then v else t j

abbrev pub put_session : ℕ → Session → Db → Db
put_session id s db = record db { sessions = put id (some s) db.sessions }

abbrev pub put_parts : ℕ → List Part → Db → Db
put_parts id ps db = record db { parts = put id ps db.parts }

-- `uploadSessionPart.upsert` on the unique [sessionId, partNumber]; rows are kept in the order of
-- part numbers in which `findMany` reads them.
unfoldable pub upsert : Part → List Part → List Part
upsert p [] = p ∷ []
upsert p (q ∷ qs) =
    if p.part_number == q.part_number
    then p ∷ qs
    else if ltb p.part_number q.part_number
    then p ∷ q ∷ qs
    else q ∷ upsert p qs
