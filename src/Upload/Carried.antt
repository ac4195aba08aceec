-- ===== src/Upload/Carried.antt =====
-- What a file record keeps of its session, without reference to how `finalizeSession` makes it.
use text.Mathlib.Text.{◌==◌ as str_eq}
use mothercare_backend.Prelude.{
  ℕ, String, ◌≡◌, refl, sym, subst, Option, none, some, Bool, false, ◌||◌, List, [], ◌∷◌, arith,
}
use mothercare_backend.Upload.Status.{completed, same}
use mothercare_backend.Upload.Db.{Session, Metadata, FileRecord}
use mothercare_backend.Upload.Finalize.{entries, with_entry, file_metadata, file_of}
use mothercare_backend.Upload.Steps.Moves.{HasFiles}

-- The entry of a key that the row may set: the row's value, or else what the client's metadata have.
abbrev pub Entry : String → Option ℕ → Option Metadata → Metadata → Type 0
Entry key (some v) old new = new key ≡ some v
Entry key none none new = new key ≡ none
Entry key none (some m) new = new key ≡ m key

-- The three keys that the server sets.
abbrev pub is_server_key : String → Bool
is_server_key k = str_eq k "roomId" || str_eq k "academicYearId" || str_eq k "uploadSessionId"

pub record Carries (id : ℕ) (s : Session) (f : FileRecord) : Type 0 where
  pub name : f.original_name ≡ s.original_filename
  pub key : f.storage_path ≡ s.storage_key
  pub purpose : f.purpose ≡ s.purpose
  pub mime : f.mime_type ≡ s.mime_type
  pub size : f.size ≡ s.expected_size
  pub owner : f.uploaded_by_id ≡ s.user_id
  pub session : f.upload_session_id ≡ id
  pub entity_type : f.entity_type ≡ s.entity_type
  pub entity_id : f.entity_id ≡ s.entity_id
  pub room : Entry "roomId" s.room_id s.metadata f.metadata
  pub year : Entry "academicYearId" s.academic_year_id s.metadata f.metadata
  pub session_entry : f.metadata "uploadSessionId" ≡ some id
  pub others : (k : String) → is_server_key k ≡ false → Entry k none s.metadata f.metadata

module _ (old : Option Metadata) (k : String) (new : Metadata) where
  plain_entry : new k ≡ entries old k → Entry k none old new
  plain_entry h =
      elim old as (λ o. new k ≡ entries o k → Entry k none o new) [
        | none ↦ λ e. e
        | some m ↦ λ e. e
      ]
        h

room_entry :
    (room year : Option ℕ) (id : ℕ) (old : Option Metadata)
    → Entry "roomId" room old (
        with_entry "uploadSessionId"
          (some id)
          (with_entry "academicYearId" year (with_entry "roomId" room (entries old))))
room_entry none none id none = refl
room_entry none none id (some m) = refl
room_entry none (some y) id none = refl
room_entry none (some y) id (some m) = refl
room_entry (some r) none id old = refl
room_entry (some r) (some y) id old = refl

year_entry :
    (room year : Option ℕ) (id : ℕ) (old : Option Metadata)
    → Entry "academicYearId" year old (
        with_entry "uploadSessionId"
          (some id)
          (with_entry "academicYearId" year (with_entry "roomId" room (entries old))))
year_entry none none id none = refl
year_entry none none id (some m) = refl
year_entry (some r) none id none = refl
year_entry (some r) none id (some m) = refl
year_entry room (some y) id old = refl

other_entry :
    (room year : Option ℕ) (id : ℕ) (old : Option Metadata) (k : String)
    → is_server_key k ≡ false
    → with_entry "uploadSessionId"
        (some id)
        (with_entry "academicYearId" year (with_entry "roomId" room (entries old)))
        k
      ≡ entries old k
other_entry none none id old k h = ground (arith, h)
other_entry none (some y) id old k h = ground (arith, h)
other_entry (some r) none id old k h = ground (arith, h)
other_entry (some r) (some y) id old k h = ground (arith, h)

pub file_of-Carries : (id : ℕ) (s : Session) → Carries id s (file_of id s)
file_of-Carries id s = record {
  name = refl;
  key = refl;
  purpose = refl;
  mime = refl;
  size = refl;
  owner = refl;
  session = refl;
  entity_type = refl;
  entity_id = refl;
  room = room_entry s.room_id s.academic_year_id id s.metadata;
  year = year_entry s.room_id s.academic_year_id id s.metadata;
  session_entry = refl;
  others = λ k h.
      plain_entry s.metadata k (file_metadata id s)
        (other_entry s.room_id s.academic_year_id id s.metadata k h);
}

-- A completed session has exactly one file record, the one that it names, and others have none.
abbrev pub HasRecord : ℕ → Session → List (ℕ × FileRecord) → Type 0
HasRecord id s [] = same s.status completed ≡ false
HasRecord id s ((k, f) ∷ []) = (s.status ≡ completed) × (s.file_record_id ≡ some k) × Carries id s f
HasRecord id s (e ∷ f ∷ fs) = ⊥

pub HasFiles-HasRecord :
    (id : ℕ) (s : Session) (fs : List (ℕ × FileRecord)) → HasFiles id s fs → HasRecord id s fs
HasFiles-HasRecord id s [] h = h
HasFiles-HasRecord id s ((k, f) ∷ []) h =
    (h.0, h.1, subst (Carries id s) (sym h.2) (file_of-Carries id s))
HasFiles-HasRecord id s (e ∷ f ∷ fs) h = h
