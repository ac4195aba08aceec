-- ===== src/Upload/Steps.antt =====
-- Any number of requests and sweeps over the same tables, interleaved at their atomic steps: a read
-- of a row, an `updateMany`, a transaction. A request acts on a row that it read at any earlier time.
pub mod Inversion
pub mod Moves
pub mod Sound
pub mod Kinds
pub mod Safety
pub mod Transitions
use mothercare_backend.Prelude.{
  ℕ, ◌+◌, ◌≤◌, ◌≡◌, ◌⊎◌, Option, none, some, Bool, true, false, List, [], ◌∷◌, ◌==◌,
}
use mothercare_backend.Upload.Status.{
  Status, initiated, uploading, completing, failed, cancelled, expired,
}
use mothercare_backend.Upload.Db.{Session, FileRecord, Db, put, put_parts}
use mothercare_backend.Upload.Result.{ok}
use mothercare_backend.Upload.Session.{update_status, release_storage}
use mothercare_backend.Upload.Create.{insert_session, NewSession}
use mothercare_backend.Upload.Transfer.{Storage, check_chunk, transfer_tx, bump_retry}
use mothercare_backend.Upload.Finalize.{check_finalize, claim, commit_finalize, park}
use mothercare_backend.Upload.Complete.{fail_session, check_complete, assemble}
use mothercare_backend.Upload.Invariant.{is_open}

-- `reads` are the rows that requests have read, `claims` those that requests read whose claim has
-- succeeded and whose transaction has not ended.
pub record Sys : Type 0 where
  pub db : Db
  pub reads : ℕ → List Session
  pub claims : ℕ → List Session

abbrev pub Among : Session → List Session → Type 0
Among s [] = ⊥
Among s (r ∷ rs) = (s ≡ r) ⊎ Among s rs

pub data Step (w : Sys) : Sys → Type 0 where
  -- `createSession` inserts its row.
  create :
      (new : NewSession) (db' : Db)
      → 1 ≤ new.expected_size
      → insert_session new w.db ≡ ok db'
      → Step w (record w { db = db' })
  -- `findUnique`
  read :
      (id : ℕ) (s : Session)
      → w.db.sessions id ≡ some s
      → Step w (record w { reads = put id (s ∷ w.reads id) w.reads })
  -- The transaction of `transferChunk`.
  chunk :
      (now now' id user offset len number total : ℕ) (storage : Storage) (seen : Session) (db' : Db)
      → Among seen (w.reads id)
      → 1 ≤ len
      → check_chunk now seen offset len ≡ ok number
      → transfer_tx now' id user offset len number storage w.db ≡ ok (total, db')
      → Step w (record w { db = db' })
  -- The counter of transient failures.
  retry :
      (now id : ℕ) (s : Session)
      → w.db.sessions id ≡ some s
      → Step w (record w { db = bump_retry now id w.db })
  -- `cancelSession` and `expireSession` write their status.
  cancel :
      (now id : ℕ) (db' : Db)
      → update_status now id (initiated ∷ uploading ∷ []) cancelled w.db ≡ (true, db')
      → Step w (record w { db = db' })
  expire :
      (now id : ℕ) (db' : Db)
      → update_status now id (initiated ∷ uploading ∷ []) expired w.db ≡ (true, db')
      → Step w (record w { db = db' })
  -- `releaseStorage`, and the end of a completed request.
  release :
      (clears : Bool) (id : ℕ) (s : Session)
      → w.db.sessions id ≡ some s
      → is_open s.status ≡ false
      → Step w (record w { db = release_storage clears id w.db })
  -- `failSession`, of a completion that read the row before; either of its writes may be lost.
  fail :
      (now now' id upload : ℕ) (parks clears : Bool) (seen s : Session)
      → Among seen (w.reads id)
      → check_complete now seen ≡ ok (assemble upload)
      → w.db.sessions id ≡ some s
      → Step w (record w { db = fail_session parks clears now' id w.db })
  -- `finalizeSession` wins its claim,
  win :
      (now id : ℕ) (seen : Session) (db' : Db)
      → Among seen (w.reads id)
      → check_finalize now seen ≡ ok none
      → claim now id w.db ≡ (true, db')
      → Step w (record w { db = db'; claims = put id (seen ∷ w.claims id) w.claims })
  -- commits its transaction,
  commit :
      (now id : ℕ) (seen : Session) (others : List Session) (db' : Db)
      → w.claims id ≡ seen ∷ others
      → commit_finalize now id seen w.db ≡ ok db'
      → Step w (record w { db = db'; claims = put id others w.claims })
  -- or fails in it and parks the session,
  abandon :
      (now id : ℕ) (seen : Session) (others : List Session)
      → w.claims id ≡ seen ∷ others
      → Step w (record w { db = park now id w.db; claims = put id others w.claims })
  -- or its process dies.
  crash :
      (id : ℕ) (seen : Session) (others : List Session)
      → w.claims id ≡ seen ∷ others
      → Step w (record w { claims = put id others w.claims })

pub data Reach (w : Sys) : Sys → Type 0 where
  here : Reach w w
  next : {u v : Sys} → Reach w u → Step u v → Reach w v

-- Nothing is stored yet.
abbrev pub start : Sys
start = record {
  db = record {
    sessions = λ _. none;
    parts = λ _. [];
    files = [];
    by_key = λ _ _. none;
    next_id = 0;
  };
  reads = λ _. [];
  claims = λ _. [];
}

-- The file records of the table that belong to a session.
abbrev pub files_of : ℕ → List (ℕ × FileRecord) → List (ℕ × FileRecord)
files_of id [] = []
files_of id ((k, f) ∷ fs) = elim (f.upload_session_id == id) [
  | true ↦ (k, f) ∷ files_of id fs
  | false ↦ files_of id fs
]
