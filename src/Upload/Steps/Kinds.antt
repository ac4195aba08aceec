-- ===== src/Upload/Steps/Kinds.antt =====
-- Each kind of atomic step keeps every session sound.
use mothercare_backend.Prelude.{
  ℕ, ◌+◌, ◌/◌, if◌then◌else◌, ◌≤◌, ◌≡◌, refl, ap, none, some, Bool, true, false, List, [], ◌∷◌,
  arith, ◌⊎◌, inl, inr, Bool-cases, Option-cases,
}
use mothercare_backend.Upload.Status.{
  Status, initiated, uploading, completing, completed, failed, same, includes,
}
use mothercare_backend.Upload.Db.{Session, Part, FileRecord, Db, put, put_parts, upsert}
use mothercare_backend.Upload.Result.{ok}
use mothercare_backend.Upload.Session.{update_status}
use mothercare_backend.Upload.Transfer.{
  Storage, check_chunk, transfer_tx, bump_retry, bumped, advanced, part_of, part_size,
}
use mothercare_backend.Upload.Finalize.{check_finalize, claim, commit_finalize, park}
use mothercare_backend.Upload.Complete.{fail_session, check_complete, assemble}
use mothercare_backend.Upload.Invariant.{
  is_open, IsSound, SoundOrCleared, uncleared, unfilled-IsSound, released-IsSound, Later, Accepted,
  check_chunk-Accepted, advanced-IsSound, closed-IsSound, bumped-IsSound,
}
use mothercare_backend.Upload.Steps.{Sys, Among, files_of}
use mothercare_backend.Upload.Steps.Inversion.{
  update_status-Updated, transfer_tx-Moved, commit_finalize-Committed, update_status_hit,
  update_status_miss, check_finalize-full,
}
use mothercare_backend.Upload.Steps.Moves.{
  Good, IsGood, Among-Later, still, leave, drop_claim, take_claim, finish, completed_row,
  files_of_self, files_of-other,
}
use mothercare_backend.Upload.Steps.Sound.{
  IsValid, at_row, claimed_at, Change-IsValid, at_put, at_same, write_row, write_claim,
  write_status, release-IsValid,
}

-- The row that an `updateMany` of the status writes.
abbrev pub status_row : ℕ → Status → Session → Session
status_row now to s = record s { status = to; last_activity_at = now }

pub status_row-Later : (now : ℕ) (to : Status) (s : Session) → Later s (status_row now to s)
status_row-Later now to s = record {
  user = refl;
  size = refl;
  key = refl;
  purpose = refl;
  name = refl;
  mime = refl;
  entity_type = refl;
  entity_id = refl;
  room = refl;
  year = refl;
  metadata = refl;
  bytes = omega arith;
}

pub advanced-Later :
    (now upload offset len : ℕ) (s : Session)
    → s.bytes_uploaded ≡ offset
    → Later s (advanced now upload offset len s)
advanced-Later now upload offset len s e = record {
  user = refl;
  size = refl;
  key = refl;
  purpose = refl;
  name = refl;
  mime = refl;
  entity_type = refl;
  entity_id = refl;
  room = refl;
  year = refl;
  metadata = refl;
  bytes = omega arith;
}

-- What the checks found of an earlier row holds of the row under the lock.
whole_row :
    {now offset len number : ℕ} {r s : Session}
    → Later r s
    → Accepted now r offset len number
    → (offset + len ≡ s.expected_size) ⊎ (len ≡ part_size)
whole_row k a = ground (arith, k.size, a.whole)

pub bumped-Later : (now : ℕ) (s : Session) → Later s (bumped now s)
bumped-Later now s = record {
  user = refl;
  size = refl;
  key = refl;
  purpose = refl;
  name = refl;
  mime = refl;
  entity_type = refl;
  entity_id = refl;
  room = refl;
  year = refl;
  metadata = refl;
  bytes = omega arith;
}

pub IsGood-completing :
    {id : ℕ} {s c : Session} {ps : List Part} {rs cs : List Session} {fs : List (ℕ × FileRecord)}
    → IsGood id s ps rs (c ∷ cs) fs
    → s.status ≡ completing
IsGood-completing {cs = []} g = g.claims.0
IsGood-completing {cs = d ∷ cs} g = absurd g.claims

pub claimed_row :
    (w : Sys) (id : ℕ) {c : Session} {cs : List Session}
    → IsValid w
    → w.claims id ≡ c ∷ cs
    → (s : Session) × (w.db.sessions id ≡ some s)
claimed_row w id v held = elim (Option-cases (w.db.sessions id)) [
  | inl missing ↦
      let g : Good id none (w.db.parts id) (w.reads id) (w.claims id) (files_of id w.db.files) =
        rw missing at (v.good id) in
      cc (g.2, held)
  | inr found ↦ found
]

-- The ledger of a byte-full session may be cleared.
cleared :
    (s : Session) (ps : List Part)
    → SoundOrCleared s ps
    → s.bytes_uploaded ≡ s.expected_size
    → SoundOrCleared s []
cleared s ps (qs, h, which) full = elim (Bool-cases (same s.status uploading)) [
  | inl busy ↦ (qs, h, inr (refl, ground (arith, busy), full))
  | inr idle ↦
      let shut : is_open s.status ≡ false = elim (Bool-cases (is_open s.status)) [
        | inl active ↦
            let bytes : s.bytes_uploaded ≡ 0 = h.fresh (ground (arith, active, idle)) in
            absurd (omega (arith, bytes, full, h.positive))
        | inr shut ↦ shut
      ] in
      uncleared (released-IsSound s qs [] h shut)
]

bumped-SoundOrCleared :
    (now : ℕ) (s : Session) (ps : List Part)
    → SoundOrCleared s ps
    → SoundOrCleared (bumped now s) ps
bumped-SoundOrCleared now s ps (qs, h, which) = (qs, bumped-IsSound now s qs h, which)

-- The request that fails a session read it byte-full, and so the row still is.
still_full :
    (now upload : ℕ) {r s : Session} {ps : List Part}
    → Later r s
    → check_complete now r ≡ ok (assemble upload)
    → SoundOrCleared s ps
    → s.bytes_uploaded ≡ s.expected_size
unfolding check_complete
still_full now upload {r} k checked (qs, h, which) =
    let full : r.bytes_uploaded ≡ r.expected_size = ground (arith, checked) in
    omega (arith, full, k.bytes, k.size, h.within)

module _ (w : Sys) (id : ℕ) (v : IsValid w) where
  -- CANCELLED or EXPIRED over an open session.
  pub close-IsValid :
      (now : ℕ) (to : Status) (db' : Db)
      → is_open to ≡ false
      → same to completed ≡ false
      → update_status now id (initiated ∷ uploading ∷ []) to w.db ≡ (true, db')
      → IsValid (record w { db = db' })
  close-IsValid now to db' shut other h =
      let u = update_status-Updated now id _ to w.db db' h in
      let s = u.row in
      let g = at_row w id v u.found in
      let active : is_open s.status ≡ true = ground (arith, u.allowed) in
      let live : same s.status completed ≡ false = ground (arith, active) in
      rw u.wrote (
        write_status w id v s (status_row now to s) u.found (
          leave id s (w.db.parts id) (w.reads id) (files_of id w.db.files) (status_row now to s)
            (w.db.parts id) (status_row-Later now to s)
            (uncleared
              (closed-IsSound now to s g.sound.0 (w.db.parts id) g.sound.1 live shut other))
            (w.claims id) g active other))

  pub chunk-IsValid :
      (now now' user offset len number total : ℕ) (storage : Storage) (seen : Session) (db' : Db)
      → Among seen (w.reads id)
      → 1 ≤ len
      → check_chunk now seen offset len ≡ ok number
      → transfer_tx now' id user offset len number storage w.db ≡ ok (total, db')
      → IsValid (record w { db = db' })
  chunk-IsValid now now' user offset len number total storage seen db' among positive checked
        moved =
      let a = check_chunk-Accepted now seen offset len number checked in
      let m = transfer_tx-Moved now' id user offset len number total storage w.db db' moved in
      let s = m.row in
      let g = at_row w id v m.found in
      let k = Among-Later (w.reads id) among g.reads in
      let t = advanced now' m.upload offset len s in
      let ps = w.db.parts id in
      let qs = upsert (part_of (offset / part_size + 1) m.etag len) ps in
      let before : IsSound s ps =
        unfilled-IsSound s ps g.sound (omega (arith, m.at_offset, a.fits, k.size, positive)) in
      let grown : SoundOrCleared t qs = uncleared (
        advanced-IsSound now' m.upload m.etag offset len s ps before m.active m.at_offset positive
          (omega (arith, a.fits, k.size)) (whole_row k a)) in
      rw (m.wrote, a.numbered)
        (write_row w id v s t qs m.found (
          leave id s ps (w.reads id) (files_of id w.db.files) t qs
            (advanced-Later now' m.upload offset len s m.at_offset) grown (w.claims id) g m.active
            refl))

  -- The claim of `finalizeSession`.
  pub win-IsValid :
      (now : ℕ) (seen : Session) (db' : Db)
      → Among seen (w.reads id)
      → check_finalize now seen ≡ ok none
      → claim now id w.db ≡ (true, db')
      → IsValid (record w { db = db'; claims = put id (seen ∷ w.claims id) w.claims })
  unfolding claim
  win-IsValid now seen db' among checked h =
      let u = update_status-Updated now id (uploading ∷ []) completing w.db db' h in
      let s = u.row in
      let g = at_row w id v u.found in
      let ps = w.db.parts id in
      let active : is_open s.status ≡ true = ground (arith, u.allowed) in
      let live : same s.status completed ≡ false = ground (arith, active) in
      rw u.wrote (
        write_claim w id v s (status_row now completing s) (seen ∷ w.claims id) u.found (
          take_claim id s (status_row now completing s) seen ps ps (w.reads id) (w.claims id)
            (files_of id w.db.files) g active
            (uncleared (closed-IsSound now completing s g.sound.0 ps g.sound.1 live refl refl)) refl
            (status_row-Later now completing s) (Among-Later (w.reads id) among g.reads)
            (check_finalize-full now seen checked).1))

  pub commit-IsValid :
      (now : ℕ) (seen : Session) (others : List Session) (db' : Db)
      → w.claims id ≡ seen ∷ others
      → commit_finalize now id seen w.db ≡ ok db'
      → IsValid (record w { db = db'; claims = put id others w.claims })
  commit-IsValid now seen others db' held h =
      let c = commit_finalize-Committed now id seen w.db db' h in
      let s = c.row in
      Change-IsValid w _ id v c.found
        (record {
          sessions =
              rw c.sessions (at_put id (some (completed_row now w.db.next_id s)) w.db.sessions);
          parts = rw c.parts (at_same id _ w.db.parts refl);
          reads = at_same id _ w.reads refl;
          claims = at_put id others w.claims;
          files = rw c.files (record {
            here = files_of_self id w.db.next_id seen w.db.files;
            others = λ j n. files_of-other id j w.db.next_id seen w.db.files n;
          });
          ids = omega (arith, c.next_id);
        })
        (finish now id w.db.next_id s (w.db.parts id) (w.reads id) seen others
          (files_of id w.db.files) (claimed_at w id v c.found held))

  pub abandon-IsValid :
      (now : ℕ) (seen : Session) (others : List Session)
      → w.claims id ≡ seen ∷ others
      → IsValid (record w { db = park now id w.db; claims = put id others w.claims })
  unfolding park
  abandon-IsValid now seen others held =
      let (s, found) = claimed_row w id v held in
      let g = claimed_at w id v found held in
      let ps = w.db.parts id in
      let t = status_row now failed s in
      let e : s.status ≡ completing = IsGood-completing g in
      rw
        (ap (λ (p : Bool × Db). p.1)
          (update_status_hit now id (completing ∷ []) failed w.db s found (rw e refl)))
        (write_claim w id v s t others found (
          drop_claim id s ps (w.reads id) (files_of id w.db.files) t ps
            (status_row-Later now failed s)
            (uncleared (closed-IsSound now failed s g.sound.0 ps g.sound.1 (rw e refl) refl refl))
            seen others g refl))

  parked_row :
      (now : ℕ) (s : Session) (ps : List Part)
      → w.db.sessions id ≡ some s
      → includes (uploading ∷ []) s.status ≡ true
      → IsGood id (status_row now failed s) ps (w.reads id) (w.claims id) (files_of id w.db.files)
  parked_row now s ps e hit =
      let g = at_row w id v e in
      leave id s (w.db.parts id) (w.reads id) (files_of id w.db.files) (status_row now failed s) ps
        (status_row-Later now failed s)
        (uncleared
          (closed-IsSound now failed s g.sound.0 ps g.sound.1 (ground (arith, hit)) refl refl))
        (w.claims id) g (ground (arith, hit)) refl

  -- A status that is parked, and a ledger that is cleared or not.
  parked-IsValid :
      (now : ℕ) (clears : Bool) (s : Session)
      → w.db.sessions id ≡ some s
      → includes (uploading ∷ []) s.status ≡ true
      → IsValid (record w { db = fail_session true clears now id w.db })
  unfolding fail_session
  parked-IsValid now true s e hit =
      rw
        (ap (λ (p : Bool × Db). p.1)
          (update_status_hit now id (uploading ∷ []) failed w.db s e hit))
        (write_row w id v s (status_row now failed s) [] e (parked_row now s [] e hit))
  parked-IsValid now false s e hit =
      rw
        (ap (λ (p : Bool × Db). p.1)
          (update_status_hit now id (uploading ∷ []) failed w.db s e hit))
        (write_status w id v s (status_row now failed s) e (parked_row now s (w.db.parts id) e hit))

  -- A status that stays, and a ledger that is cleared or not.
  unparked-IsValid :
      (clears : Bool) (s : Session)
      → w.db.sessions id ≡ some s
      → s.bytes_uploaded ≡ s.expected_size
      → IsValid (record w { db = if clears then put_parts id [] w.db else w.db })
  unparked-IsValid false s e full = v
  unparked-IsValid true s e full =
      release-IsValid w id v s [] e (cleared s (w.db.parts id) (at_row w id v e).sound full)

  pub fail-IsValid :
      (now now' upload : ℕ) (parks clears : Bool) (seen s : Session)
      → Among seen (w.reads id)
      → check_complete now seen ≡ ok (assemble upload)
      → w.db.sessions id ≡ some s
      → IsValid (record w { db = fail_session parks clears now' id w.db })
  unfolding fail_session
  fail-IsValid now now' upload parks clears seen s among checked e =
      let g = at_row w id v e in
      let full = still_full now upload (Among-Later (w.reads id) among g.reads) checked g.sound in
      elim (Bool-cases parks) [
        | inr lost ↦ rw lost (unparked-IsValid clears s e full)
        | inl written ↦ elim (Bool-cases (includes (uploading ∷ []) s.status)) [
          | inl hit ↦ rw written (parked-IsValid now' clears s e hit)
          | inr miss ↦
              rw
                (
                  written,
                  ap (λ (p : Bool × Db). p.1)
                      (update_status_miss now' id (uploading ∷ []) failed w.db s e miss),
                )
                (unparked-IsValid clears s e full)
        ]
      ]

  pub retry-IsValid :
      (now : ℕ) (s : Session)
      → w.db.sessions id ≡ some s
      → IsValid (record w { db = bump_retry now id w.db })
  unfolding bump_retry
  retry-IsValid now s e =
      rw (e, bump_retry)
        (write_status w id v s (bumped now s) e (
          still id s (w.db.parts id) (w.reads id) (files_of id w.db.files) (bumped now s)
            (w.db.parts id) (bumped-Later now s)
            (bumped-SoundOrCleared now s (w.db.parts id) (at_row w id v e).sound) (w.claims id)
            (at_row w id v e) refl refl))
