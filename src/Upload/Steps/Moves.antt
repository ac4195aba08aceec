-- ===== src/Upload/Steps/Moves.antt =====
-- The invariant of one session's rows, reads, claims and files, under each change of its row.
use mothercare_backend.Prelude.{
  ℕ, ◌≡◌, refl, ◌∙◌, sym, subst, Option, none, some, true, false, List, [], ◌∷◌, ◌++◌, arith, All,
  inl, inr, ◌==◌, ==_iff, Bool-cases, append-nil,
}
use mothercare_backend.Upload.Status.{completing, completed, same}
use mothercare_backend.Upload.Db.{Session, Part, FileRecord}
use mothercare_backend.Upload.Finalize.{file_of}
use mothercare_backend.Upload.Invariant.{
  SoundOrCleared, uncleared, Later, is_open, completed-IsSound,
}
use mothercare_backend.Upload.Steps.{Among, files_of}

-- At most one request holds the claim, it read a byte-full row, and the session is completing.
abbrev pub Claims : Session → List Session → Type 0
Claims s [] = Unit
Claims s (c ∷ []) = (s.status ≡ completing) × Later c s × (c.bytes_uploaded ≡ c.expected_size)
Claims s (c ∷ d ∷ cs) = ⊥

-- A completed session has exactly one file record, the one that it names; others have none.
abbrev pub HasFiles : ℕ → Session → List (ℕ × FileRecord) → Type 0
HasFiles id s [] = same s.status completed ≡ false
HasFiles id s ((k, f) ∷ []) =
    (s.status ≡ completed) × (s.file_record_id ≡ some k) × (f ≡ file_of id s)
HasFiles id s (e ∷ f ∷ fs) = ⊥

pub record IsGood (id : ℕ) (s : Session) (ps : List Part) (rs cs : List Session)
    (fs : List (ℕ × FileRecord)) : Type 0 where
  pub sound : SoundOrCleared s ps
  pub reads : All (λ r. Later r s) rs
  pub claims : Claims s cs
  pub files : HasFiles id s fs

-- Of a session that is not there nothing is stored.
abbrev pub Good :
    ℕ → Option Session → List Part → List Session → List Session → List (ℕ × FileRecord) → Type 0
Good id none ps rs cs fs = (ps ≡ []) × (rs ≡ []) × (cs ≡ []) × (fs ≡ [])
Good id (some s) ps rs cs fs = IsGood id s ps rs cs fs

pub Later-refl : (s : Session) → Later s s
Later-refl s = record {
  user = refl;
  size = refl;
  key = refl;
  purpose = refl;
  name = refl;
  mime = refl;
  entity_type = refl;
  entity_id = refl;
  room = refl;
  year = refl;
  metadata = refl;
  bytes = omega arith;
}

pub Later-trans : {r s t : Session} → Later r s → Later s t → Later r t
Later-trans h k = record {
  user = k.user ∙ h.user;
  size = k.size ∙ h.size;
  key = k.key ∙ h.key;
  purpose = k.purpose ∙ h.purpose;
  name = k.name ∙ h.name;
  mime = k.mime ∙ h.mime;
  entity_type = k.entity_type ∙ h.entity_type;
  entity_id = k.entity_id ∙ h.entity_id;
  room = k.room ∙ h.room;
  year = k.year ∙ h.year;
  metadata = k.metadata ∙ h.metadata;
  bytes = omega (arith, h.bytes, k.bytes);
}

pub reads-Later :
    {s t : Session} (rs : List Session)
    → Later s t
    → All (λ r. Later r s) rs
    → All (λ r. Later r t) rs
reads-Later [] k h = tt
reads-Later (r ∷ rs) k h = (Later-trans h.0 k, reads-Later rs k h.1)

pub Among-Later :
    {s t : Session} (rs : List Session) → Among s rs → All (λ r. Later r t) rs → Later s t
Among-Later [] m h = absurd m
Among-Later (r ∷ rs) (inl e) h = rw e h.0
Among-Later (r ∷ rs) (inr m) h = Among-Later rs m h.1

pub Claims-open :
    (s : Session) (cs : List Session) → is_open s.status ≡ true → Claims s cs → cs ≡ []
Claims-open s [] o h = refl
Claims-open s (c ∷ []) o h = ground (arith, h.0)
Claims-open s (c ∷ d ∷ cs) o h = absurd h

pub Claims-Later :
    {s t : Session} (cs : List Session)
    → Later s t
    → t.status ≡ s.status
    → Claims s cs
    → Claims t cs
Claims-Later [] k e h = tt
Claims-Later (c ∷ []) k e h = (e ∙ h.0, Later-trans h.1 k, h.2)
Claims-Later (c ∷ d ∷ cs) k e h = h

-- While a session is not completed it has no file, and keeps none.
pub HasFiles-live :
    (id : ℕ) (s t : Session) (fs : List (ℕ × FileRecord))
    → same s.status completed ≡ false
    → same t.status completed ≡ false
    → HasFiles id s fs
    → HasFiles id t fs
HasFiles-live id s t [] l m h = m
HasFiles-live id s t ((k, f) ∷ []) l m h = ground (arith, h.0)
HasFiles-live id s t (e ∷ f ∷ fs) l m h = h

pub HasFiles-none :
    (id : ℕ) (s : Session) (fs : List (ℕ × FileRecord))
    → same s.status completed ≡ false
    → HasFiles id s fs
    → fs ≡ []
HasFiles-none id s [] l h = refl
HasFiles-none id s ((k, f) ∷ []) l h = ground (arith, h.0)
HasFiles-none id s (e ∷ f ∷ fs) l h = absurd h

pub files_of-append :
    (id : ℕ) (xs ys : List (ℕ × FileRecord))
    → files_of id (xs ++ ys) ≡ files_of id xs ++ files_of id ys
files_of-append id [] ys = refl
files_of-append id ((k, f) ∷ xs) ys = elim (Bool-cases (f.upload_session_id == id)) [
  | inl e ↦ ground (arith, files_of-append id xs ys)
  | inr n ↦ ground (arith, files_of-append id xs ys)
]

-- To prove a statement of every session after a change of one.
pub by_id : (P : ℕ → Type 0) (id : ℕ) → P id → ((j : ℕ) → (j == id) ≡ false → P j) → (j : ℕ) → P j
by_id P id here others j = elim (Bool-cases (j == id)) [
  | inl e ↦ subst P (sym ((==_iff j id).0 e)) here
  | inr n ↦ others j n
]

file_of-Later : (id : ℕ) (s t : Session) → Later s t → file_of id s ≡ file_of id t
file_of-Later id s t k = cc (
  k.user, k.size, k.key, k.purpose, k.name, k.mime, k.entity_type, k.entity_id, k.room, k.year,
  k.metadata,
)

HasFiles-same :
    (id : ℕ) (s t : Session) (fs : List (ℕ × FileRecord))
    → Later s t
    → t.status ≡ s.status
    → t.file_record_id ≡ s.file_record_id
    → HasFiles id s fs
    → HasFiles id t fs
HasFiles-same id s t [] k e f h = rw e h
HasFiles-same id s t ((n, r) ∷ []) k e f h = (e ∙ h.0, f ∙ h.1, h.2 ∙ file_of-Later id s t k)
HasFiles-same id s t (x ∷ y ∷ fs) k e f h = h

module _ (id : ℕ) (s : Session) (ps : List Part) (rs : List Session) (fs : List (ℕ × FileRecord))
    (t : Session) (qs : List Part) (later : Later s t) (sound : SoundOrCleared t qs) where
  -- A row that keeps its status.
  pub still :
      (cs : List Session)
      → IsGood id s ps rs cs fs
      → t.status ≡ s.status
      → t.file_record_id ≡ s.file_record_id
      → IsGood id t qs rs cs fs
  still cs g e f = record {
    sound = sound;
    reads = reads-Later rs later g.reads;
    claims = Claims-Later cs later e g.claims;
    files = HasFiles-same id s t fs later e f g.files;
  }

  -- An open row that moves on to a status other than COMPLETED.
  pub leave :
      (cs : List Session)
      → IsGood id s ps rs cs fs
      → is_open s.status ≡ true
      → same t.status completed ≡ false
      → IsGood id t qs rs cs fs
  leave cs g o live = record {
    sound = sound;
    reads = reads-Later rs later g.reads;
    claims = rw (Claims-open s cs o g.claims) tt;
    files = HasFiles-live id s t fs (ground arith) live g.files;
  }

  -- A row whose claim ends in failure.
  pub drop_claim :
      (c : Session) (cs : List Session)
      → IsGood id s ps rs (c ∷ cs) fs
      → same t.status completed ≡ false
      → IsGood id t qs rs cs fs
  drop_claim c [] g live = record {
    sound = sound;
    reads = reads-Later rs later g.reads;
    claims = tt;
    files =
        HasFiles-live id s t fs (let e : s.status ≡ completing = g.claims.0 in rw e refl) live
          g.files;
  }
  drop_claim c (d ∷ cs) g live = absurd g.claims

-- The row that a commit writes.
abbrev pub completed_row : ℕ → ℕ → Session → Session
completed_row now k s = record s {
  status = completed;
  file_record_id = some k;
  last_activity_at = now;
}

pub completed-Later : (now k : ℕ) (s : Session) → Later s (completed_row now k s)
completed-Later now k s = record {
  user = refl;
  size = refl;
  key = refl;
  purpose = refl;
  name = refl;
  mime = refl;
  entity_type = refl;
  entity_id = refl;
  room = refl;
  year = refl;
  metadata = refl;
  bytes = omega arith;
}

pub finish :
    (now id k : ℕ) (s : Session) (ps : List Part) (rs : List Session) (c : Session)
    (cs : List Session) (fs : List (ℕ × FileRecord))
    → IsGood id s ps rs (c ∷ cs) fs
    → IsGood id (completed_row now k s) ps rs cs (fs ++ (k, file_of id c) ∷ [])
finish now id k s ps rs c [] fs g =
    rw (HasFiles-none id s fs (let e : s.status ≡ completing = g.claims.0 in rw e refl) g.files)
      record {
        sound = uncleared (completed-IsSound now k s g.sound.0 ps g.sound.1);
        reads = reads-Later rs (completed-Later now k s) g.reads;
        claims = tt;
        files = (refl, refl, file_of-Later id c s g.claims.1);
      }
finish now id k s ps rs c (d ∷ cs) fs g = absurd g.claims

pub fewer_claims :
    {id : ℕ} {s : Session} {ps : List Part} {rs : List Session} {fs : List (ℕ × FileRecord)}
    (c : Session) (cs : List Session)
    → IsGood id s ps rs (c ∷ cs) fs
    → IsGood id s ps rs cs fs
fewer_claims c [] g = record { sound = g.sound; reads = g.reads; claims = tt; files = g.files }
fewer_claims c (d ∷ cs) g = absurd g.claims

-- A byte-full request takes the claim of an open session.
pub take_claim :
    (id : ℕ) (s t c : Session) (ps qs : List Part) (rs cs : List Session)
    (fs : List (ℕ × FileRecord))
    → IsGood id s ps rs cs fs
    → is_open s.status ≡ true
    → SoundOrCleared t qs
    → t.status ≡ completing
    → Later s t
    → Later c s
    → c.bytes_uploaded ≡ c.expected_size
    → IsGood id t qs rs (c ∷ cs) fs
take_claim id s t c ps qs rs cs fs g o sound e later k full =
    rw (Claims-open s cs o g.claims) record {
      sound = sound;
      reads = reads-Later rs later g.reads;
      claims = (e, Later-trans k later, full);
      files = HasFiles-live id s t fs (ground arith) (rw e refl) g.files;
    }

pub files_of_self :
    (id k : ℕ) (c : Session) (fs : List (ℕ × FileRecord))
    → files_of id (fs ++ (k, file_of id c) ∷ []) ≡ files_of id fs ++ (k, file_of id c) ∷ []
files_of_self id k c fs = rw files_of-append (ground arith)

pub files_of-other :
    (id j k : ℕ) (c : Session) (fs : List (ℕ × FileRecord))
    → (j == id) ≡ false
    → files_of j (fs ++ (k, file_of id c) ∷ []) ≡ files_of j fs
files_of-other id j k c fs n =
    let n' : (id == j) ≡ false = ground arith in rw (files_of-append, n', files_of) (append-nil _)
