-- ===== src/Upload/Invariant.antt =====
-- What holds of the rows of one upload session, whatever requests have run.
use mothercare_backend.Prelude.{
  ℕ, ◌+◌, ◌*◌, ◌/◌, ◌%◌, ◌≤◌, ◌<◌, ◌≡◌, refl, sym, subst, ap, ◌∙◌, ◌⊎◌, ◌↔◌, inl, inr, some, Bool,
  true, false, List, [], ◌∷◌, ◌++◌, arith, length, is_some, sum_by-append,
}
use mothercare_backend.Upload.Status.{Status, initiated, uploading, completed, same}
use mothercare_backend.Upload.Db.{Session, Part, upsert}
use mothercare_backend.Upload.Result.{ok}
use mothercare_backend.Upload.Session.{is_session_expired}
use mothercare_backend.Upload.Transfer.{
  part_size, part_of, total_size, check_chunk, advanced, assert_parts_cover,
}
use mothercare_backend.Upload.Ledger.{
  Full, Ledger, total_size-Full, upsert-Full, Full-append, Ledger-append, assert_parts_cover_iff,
}

-- The statuses in which bytes are still accepted.
abbrev pub is_open : Status → Bool
is_open initiated = true
is_open uploading = true
is_open _ = false

-- The row `s` of a session and its ledger `ps`.
pub record IsSound (s : Session) (ps : List Part) : Type 0 where
  pub positive : 1 ≤ s.expected_size
  pub within : s.bytes_uploaded ≤ s.expected_size
  pub fresh : s.status ≡ initiated → s.bytes_uploaded ≡ 0
  pub ledger : is_open s.status ≡ true → Ledger 0 ps × (total_size ps ≡ s.bytes_uploaded)
  pub aligned : is_open s.status ≡ true → s.bytes_uploaded < s.expected_size → Full 0 ps
  pub provided : s.status ≡ uploading → is_some s.provider_upload_id ≡ true
  pub linked : is_some s.file_record_id ≡ same s.status completed

-- A sound session, but that its ledger may be gone when all its bytes have arrived and it still takes
-- a completion: `failSession` drops the ledger even if its write of the status failed.
abbrev pub SoundOrCleared : Session → List Part → Type 0
SoundOrCleared s ps =
    (qs : List Part) × IsSound s qs
    × ((ps ≡ qs) ⊎ ((ps ≡ []) × (s.status ≡ uploading) × (s.bytes_uploaded ≡ s.expected_size)))

pub uncleared : {s : Session} {ps : List Part} → IsSound s ps → SoundOrCleared s ps
uncleared {s} {ps} h = (ps, h, inl refl)

-- A session that takes bytes has its ledger.
pub unfilled-IsSound :
    (s : Session) (ps : List Part)
    → SoundOrCleared s ps
    → s.bytes_uploaded < s.expected_size
    → IsSound s ps
unfilled-IsSound s ps (qs, h, inl same_ledger) less = subst (IsSound s) (sym same_ledger) h
unfilled-IsSound s ps (qs, h, inr (gone, busy, full)) less = absurd (omega (arith, full, less))

-- What a later row of the same session shares with an earlier one.
pub record Later (s t : Session) : Type 0 where
  pub user : t.user_id ≡ s.user_id
  pub size : t.expected_size ≡ s.expected_size
  pub key : t.storage_key ≡ s.storage_key
  pub purpose : t.purpose ≡ s.purpose
  pub name : t.original_filename ≡ s.original_filename
  pub mime : t.mime_type ≡ s.mime_type
  pub entity_type : t.entity_type ≡ s.entity_type
  pub entity_id : t.entity_id ≡ s.entity_id
  pub room : t.room_id ≡ s.room_id
  pub year : t.academic_year_id ≡ s.academic_year_id
  pub metadata : t.metadata ≡ s.metadata
  pub bytes : s.bytes_uploaded ≤ t.bytes_uploaded

pub record Accepted (now : ℕ) (s : Session) (offset len number : ℕ) : Type 0 where
  pub active : is_open s.status ≡ true
  pub unexpired : is_session_expired now s ≡ false
  pub at_offset : offset ≡ s.bytes_uploaded
  pub fits : offset + len ≤ s.expected_size
  pub whole : (offset + len ≡ s.expected_size) ⊎ (len ≡ part_size)
  pub aligned : offset % part_size ≡ 0
  pub numbered : number ≡ offset / part_size + 1

-- What the checks before the transaction let through.
pub check_chunk-Accepted :
    (now : ℕ) (s : Session) (offset len number : ℕ)
    → check_chunk now s offset len ≡ ok number
    → Accepted now s offset len number
unfolding check_chunk
check_chunk-Accepted now s offset len number h = ground arith

-- They let through all that fits this description.
pub Accepted-check_chunk :
    (now : ℕ) (s : Session) (offset len number : ℕ)
    → Accepted now s offset len number
    → check_chunk now s offset len ≡ ok number
unfolding check_chunk
Accepted-check_chunk now s offset len number h = ground arith

-- The checks of a chunk request let it through exactly when the session is open and unexpired, the
-- chunk starts at its offset, fits in it, is a whole part or the rest, and starts at a part boundary;
-- its part number is then the offset in parts, counted from 1.
pub check_chunk_iff :
    (now : ℕ) (s : Session) (offset len number : ℕ)
    → (check_chunk now s offset len ≡ ok number) ↔ Accepted now s offset len number
check_chunk_iff now s offset len number =
    (check_chunk-Accepted now s offset len number, Accepted-check_chunk now s offset len number)

module _ (now upload etag offset len : ℕ) (s : Session) (ps : List Part) (h : IsSound s ps)
    (active : is_open s.status ≡ true) (at_offset : s.bytes_uploaded ≡ offset)
    (some_bytes : 1 ≤ len) (fits : offset + len ≤ s.expected_size)
    (whole : (offset + len ≡ s.expected_size) ⊎ (len ≡ part_size)) where
  abbrev next_part : Part
  next_part = part_of (offset / part_size + 1) etag len

  whole_before : Full 0 ps
  whole_before = h.aligned active (omega arith)

  offset-eq : offset ≡ length ps * part_size
  offset-eq = omega (arith, (h.ledger active).1, total_size-Full 0 ps whole_before)

  next_number : offset / part_size + 1 ≡ 0 + length ps + 1
  next_number = omega (arith, offset-eq)

  appended : upsert next_part ps ≡ ps ++ next_part ∷ []
  appended = upsert-Full 0 ps next_part whole_before next_number

  total-next : total_size (ps ++ next_part ∷ []) ≡ offset + len
  total-next =
      omega (arith, sum_by-append (λ (p : Part). p.size) ps (next_part ∷ []), (h.ledger active).1)

  -- A chunk that the checks let through keeps the rows sound.
  pub advanced-IsSound : IsSound (advanced now upload offset len s) (upsert next_part ps)
  advanced-IsSound = rw appended record {
    positive = h.positive;
    within = fits;
    fresh = λ e. cc;
    ledger = λ _. (Ledger-append 0 ps next_part whole_before next_number, total-next);
    aligned = λ _ less. elim whole [
      | inl full ↦ absurd (omega arith)
      | inr size ↦ Full-append 0 ps next_part whole_before next_number size
    ];
    provided = λ _. refl;
    linked = ground (arith, h.linked);
  }

-- A row that leaves the open statuses for one other than COMPLETED is sound with any ledger.
pub closed-IsSound :
    (now : ℕ) (to : Status) (s : Session) (ps qs : List Part)
    → IsSound s ps
    → same s.status completed ≡ false
    → is_open to ≡ false
    → same to completed ≡ false
    → IsSound (record s { status = to; last_activity_at = now }) qs
closed-IsSound now to s ps qs h live shut other = record {
  positive = h.positive;
  within = h.within;
  fresh = λ e. ground arith;
  ledger = λ e. ground arith;
  aligned = λ e _. ground arith;
  provided = λ e. ground arith;
  linked = ground (arith, h.linked);
}

pub completed-IsSound :
    (now file : ℕ) (s : Session) (ps qs : List Part)
    → IsSound s ps
    → IsSound
        (record s { status = completed; file_record_id = some file; last_activity_at = now })
        qs
completed-IsSound now file s ps qs h = record {
  positive = h.positive;
  within = h.within;
  fresh = λ e. cc;
  ledger = λ e. cc;
  aligned = λ e _. cc;
  provided = λ e. cc;
  linked = refl;
}

-- Dropping the ledger of a session that takes no more bytes.
pub released-IsSound :
    (s : Session) (ps qs : List Part) → IsSound s ps → is_open s.status ≡ false → IsSound s qs
released-IsSound s ps qs h shut = record {
  positive = h.positive;
  within = h.within;
  fresh = h.fresh;
  ledger = λ e. ground arith;
  aligned = λ e _. ground arith;
  provided = h.provided;
  linked = h.linked;
}

pub bumped-IsSound :
    (now : ℕ) (s : Session) (ps : List Part)
    → IsSound s ps
    → IsSound (record s { retry_count = s.retry_count + 1; last_activity_at = now }) ps
bumped-IsSound now s ps h = record {
  positive = h.positive;
  within = h.within;
  fresh = h.fresh;
  ledger = h.ledger;
  aligned = h.aligned;
  provided = h.provided;
  linked = h.linked;
}

-- Every byte-full ledger of an open session passes `assertPartsCover`.
pub covered :
    (s : Session) (ps : List Part)
    → IsSound s ps
    → is_open s.status ≡ true
    → s.bytes_uploaded ≡ s.expected_size
    → assert_parts_cover ps s.expected_size ≡ ok tt
covered s ps h e full = (assert_parts_cover_iff ps s.expected_size).1 (
  λ none_yet. absurd (omega (arith, ap total_size none_yet, total, h.positive)),
  parts.0,
  total ∙ full,
)
  where
    parts : Ledger 0 ps × (total_size ps ≡ s.bytes_uploaded)
    parts = h.ledger e

    total : total_size ps ≡ s.bytes_uploaded
    total = parts.1
