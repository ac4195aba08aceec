-- ===== src/Upload/Protocol.antt =====
-- The offset protocol from the side of a client that sends a file chunk by chunk, and the effect of
-- each answer of `transferChunk`.
use mothercare_backend.Prelude.{
  ℕ, zero, suc, ◌+◌, ◌-◌, ◌*◌, ◌/◌, ◌%◌, ◌≤◌, ◌<◌, min, ◌≡◌, refl, String, none, some, true, false,
  arith, inl, inr, ◌==◌, ==_iff, leb, Bool-cases, Option-cases,
}
use mothercare_backend.Upload.Db.{Session, Part, Db, put, put_session, put_parts, upsert}
use mothercare_backend.Upload.Result.{ok}
use mothercare_backend.Upload.Session.{is_session_expired, find_owned-ok}
use mothercare_backend.Upload.Transfer.{
  part_size, part_of, advanced, transfer_tx, Storage, accept_chunk,
}
use mothercare_backend.Prelude.{List, if◌then◌else◌}
use mothercare_backend.Upload.Transfer.{assert_parts_cover}
use mothercare_backend.Upload.Ledger.{total_size-Full}
use mothercare_backend.Upload.Steps.Moves.{Later-refl, Later-trans}
use mothercare_backend.Upload.Steps.Kinds.{advanced-Later}
use mothercare_backend.Upload.Invariant.{
  is_open, Accepted, Accepted-check_chunk, IsSound, Later, advanced-IsSound, covered,
}

-- A provider that takes every part.
abbrev pub willing : (ℕ → String → ℕ) → (ℕ → ℕ → ℕ → ℕ → ℕ) → Storage
willing uploads etags = record {
  create_upload = λ key mime. ok (uploads key mime);
  upload_part = λ key upload number len. ok (etags key upload number len);
}

-- The next chunk of a client at the server's offset: a whole part, or what is left.
abbrev pub next_len : Session → ℕ
next_len s = min part_size (s.expected_size - s.bytes_uploaded)

put_here : {A : Type 0} (id : ℕ) (v : A) (t : ℕ → A) → put id v t id ≡ v
put_here id v t = rw ((==_iff id id).1 refl)

module _ (uploads : ℕ → String → ℕ) (etags : ℕ → ℕ → ℕ → ℕ → ℕ) (now id user : ℕ) where
  abbrev upload_of : Session → ℕ
  upload_of s = elim s.provider_upload_id [
    | some upload ↦ upload
    | none ↦ uploads s.storage_key s.mime_type
  ]

  abbrev number_of : Session → ℕ
  number_of s = s.bytes_uploaded / part_size + 1

  -- The row and the ledger after the next chunk.
  abbrev pub sent_row : Session → Session
  sent_row s = advanced now (upload_of s) s.bytes_uploaded (next_len s) s

  abbrev pub sent_part : Session → Part
  sent_part s =
      part_of (number_of s) (etags s.storage_key (upload_of s) (number_of s) (next_len s))
        (next_len s)

  abbrev pub sent : Session → Db → Db
  sent s db = put_parts id (upsert (sent_part s) (db.parts id)) (put_session id (sent_row s) db)

  next_len-Accepted :
      (s : Session)
      → is_open s.status ≡ true
      → is_session_expired now s ≡ false
      → s.bytes_uploaded < s.expected_size
      → s.bytes_uploaded % part_size ≡ 0
      → Accepted now s s.bytes_uploaded (next_len s) (number_of s)
  next_len-Accepted s active fresh more aligned = record {
    active = active;
    unexpired = fresh;
    at_offset = refl;
    fits = omega arith;
    whole = elim (Bool-cases (leb part_size (s.expected_size - s.bytes_uploaded))) [
      | inl large ↦ inr (ground arith)
      | inr small ↦ inl (ground arith)
    ];
    aligned = aligned;
    numbered = refl;
  }

  transfer_tx-sent :
      (s : Session) (db : Db)
      → db.sessions id ≡ some s
      → s.user_id ≡ user
      → is_open s.status ≡ true
      → is_session_expired now s ≡ false
      → transfer_tx now id user s.bytes_uploaded
          (next_len s)
          (number_of s)
          (willing uploads etags)
          db
        ≡ ok (s.bytes_uploaded + next_len s, sent s db)
  unfolding transfer_tx
  transfer_tx-sent s db found owner active fresh = elim (Option-cases s.provider_upload_id) [
    | inl new ↦ ground arith
    | inr (upload, old) ↦ ground arith
  ]

  -- A chunk of the client is accepted.
  pub accept_chunk-sent :
      (s : Session) (db : Db)
      → db.sessions id ≡ some s
      → s.user_id ≡ user
      → is_open s.status ≡ true
      → is_session_expired now s ≡ false
      → s.bytes_uploaded < s.expected_size
      → s.bytes_uploaded % part_size ≡ 0
      → accept_chunk now now id
          (some user)
          s.bytes_uploaded
          (next_len s)
          true
          (willing uploads etags)
          db
          db
        ≡ (
          ok (record {
            bytes_uploaded = s.bytes_uploaded + next_len s;
            expected_size = s.expected_size;
            part_number = number_of s;
            complete = s.bytes_uploaded + next_len s == s.expected_size;
          }),
          sent s db,
        )
  unfolding accept_chunk
  accept_chunk-sent s db found owner active fresh more aligned = rw (
    find_owned-ok id user db s found owner,
    Accepted-check_chunk now s s.bytes_uploaded (next_len s) (number_of s)
        (next_len-Accepted s active fresh more aligned),
    transfer_tx-sent s db found owner active fresh,
    accept_chunk,
  )

  -- Steps 2 to 5 of the protocol, until the server has all bytes.
  pub client : ℕ → Db → Db
  client zero db = db
  client (suc n) db = elim (db.sessions id) [
    | none ↦ db
    | some s ↦
        let rest =
          client n
            (accept_chunk now now id (some user) s.bytes_uploaded (next_len s) true
              (willing uploads etags) db db).1 in
        if s.bytes_uploaded == s.expected_size then db else rest
  ]

  not_expired : (s : Session) → now < s.expires_at → is_session_expired now s ≡ false
  unfolding is_session_expired
  not_expired s h = ground arith

  -- All bytes have arrived, and the ledger covers them.
  pub record Arrived (s : Session) (db : Db) : Type 0 where
    pub row : Session
    pub found : db.sessions id ≡ some row
    pub later : Later s row
    pub active : is_open row.status ≡ true
    pub full : row.bytes_uploaded ≡ s.expected_size
    pub sound : IsSound row (db.parts id)
    pub covers : assert_parts_cover (db.parts id) row.expected_size ≡ ok tt

  aligned_of_sound :
      (s : Session) (ps : List Part)
      → IsSound s ps
      → is_open s.status ≡ true
      → s.bytes_uploaded < s.expected_size
      → s.bytes_uploaded % part_size ≡ 0
  aligned_of_sound s ps h o more =
      omega (arith, total_size-Full 0 ps (h.aligned o more), (h.ledger o).1)

  sent-IsSound :
      (s : Session) (ps : List Part)
      → IsSound s ps
      → is_open s.status ≡ true
      → s.bytes_uploaded < s.expected_size
      → IsSound (sent_row s) (upsert (sent_part s) ps)
  sent-IsSound s ps h o more =
      advanced-IsSound now (upload_of s)
        (etags s.storage_key (upload_of s) (number_of s) (next_len s)) s.bytes_uploaded (next_len s)
        s ps h o refl (omega arith) (omega arith)
        (elim (Bool-cases (leb part_size (s.expected_size - s.bytes_uploaded))) [
          | inl large ↦ inr (ground arith)
          | inr small ↦ inl (ground arith)
        ])

  -- A client that sends the next whole part, or what is left, until the server has everything brings
  -- a sound open session that does not expire to its full size, in n chunks if n parts hold what is
  -- left, when no request interferes and the provider takes each part; the ledger then passes
  -- `assertPartsCover`.
  pub client-Arrived :
      (n : ℕ) (s : Session) (db : Db)
      → db.sessions id ≡ some s
      → s.user_id ≡ user
      → is_open s.status ≡ true
      → now < s.expires_at
      → IsSound s (db.parts id)
      → s.expected_size - s.bytes_uploaded ≤ n * part_size
      → Arrived s (client n db)
  unfolding client
  client-Arrived zero s db found owner active fresh h enough = record {
    row = s;
    found = found;
    later = Later-refl s;
    active = active;
    full = omega (arith, h.within);
    sound = h;
    covers = covered s (db.parts id) h active (omega (arith, h.within));
  }
  client-Arrived (suc n) s db found owner active fresh h enough =
      elim (Bool-cases (s.bytes_uploaded == s.expected_size)) [
        | inl done ↦
            rw (found, client, done)
              (record {
                row = s;
                found = found;
                later = Later-refl s;
                active = active;
                full = (==_iff s.bytes_uploaded s.expected_size).0 done;
                sound = h;
                covers =
                    covered s (db.parts id) h active
                      ((==_iff s.bytes_uploaded s.expected_size).0 done);
              })
        | inr more ↦
            let less : s.bytes_uploaded < s.expected_size = ground (arith, h.within) in
            let fresh' : is_session_expired now s ≡ false = not_expired s fresh in
            let accepted =
              accept_chunk-sent s db found owner active fresh' less
                (aligned_of_sound s (db.parts id) h active less) in
            let rest =
              client-Arrived n (sent_row s) (sent s db) (put_here id _ db.sessions) owner refl fresh
                (rw (put_here id (upsert (sent_part s) (db.parts id)) db.parts)
                  (sent-IsSound s (db.parts id) h active less))
                (omega arith) in
            rw (found, client, more, accepted)
              (record {
                row = rest.row;
                found = rest.found;
                later =
                    Later-trans
                      (advanced-Later now (upload_of s) s.bytes_uploaded (next_len s) s refl)
                      rest.later;
                active = rest.active;
                full = rest.full;
                sound = rest.sound;
                covers = rest.covers;
              })
      ]
