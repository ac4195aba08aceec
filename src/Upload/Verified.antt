-- ===== src/Upload/Verified.antt =====
-- What a completion has verified before it links a file record.
use mothercare_backend.Prelude.{
  ℕ, String, Option, none, some, Bool, true, false, ◌≡◌, refl, ap, sym, ◌∙◌, ◌⊎◌, inl, inr, arith,
  Bool-cases, Option-cases, List,
}
use mothercare_backend.Upload.Status.{completed}
use mothercare_backend.Upload.Db.{Session, Part, Db}
use mothercare_backend.Upload.Result.{Error, Result, ok, err, Result-cases}
use mothercare_backend.Upload.Session.{find_owned, find_owned-found}
use mothercare_backend.Upload.Finalize.{Linked, finalize_session}
use mothercare_backend.Upload.Transfer.{assert_parts_cover}
use mothercare_backend.Upload.Mime.{type_passes}
use mothercare_backend.Upload.Cancelled.{without_parts}
use mothercare_backend.Upload.Complete.{
  Assembly, Verdict, sound, retry, refuse, judge, judge_size, judge_type, replay, assemble,
  check_complete, complete_upload_session, fail_session, link,
}

-- The object was assembled from the parts, has the expected size, and its type passes the gate.
abbrev pub Verified : Assembly → ℕ → List Part → Session → Type 0
Verified a upload parts s =
    (a.complete_upload s.storage_key upload parts ≡ ok tt)
    × (a.stat_object s.storage_key ≡ ok (some s.expected_size))
    × (sniffed : Option String) × (a.sniff_prefix s.storage_key ≡ ok sniffed)
    × (type_passes sniffed s.purpose s.original_filename s.mime_type ≡ true)

judge_type_passes :
    (s : Session) (r : Result (Option String))
    → judge_type s r ≡ sound
    → (sniffed : Option String) × (r ≡ ok sniffed)
      × (type_passes sniffed s.purpose s.original_filename s.mime_type ≡ true)
judge_type_passes s (err e) h = absurd (ground arith)
judge_type_passes s (ok sniffed) h =
    elim (Bool-cases (type_passes sniffed s.purpose s.original_filename s.mime_type)) [
      | inl passes ↦ (sniffed, refl, passes)
      | inr stops ↦ absurd (ground arith)
    ]

judge_size_fits :
    (s : Session) (r : Result (Option ℕ)) (next : Verdict)
    → judge_size s r next ≡ sound
    → (r ≡ ok (some s.expected_size)) × (next ≡ sound)
judge_size_fits s (err e) next h = absurd (cc h)
judge_size_fits s (ok none) next h = absurd (cc h)
judge_size_fits s (ok (some size)) next h = ground arith

judge-Verified :
    (a : Assembly) (upload : ℕ) (parts : List Part) (s : Session)
    → judge a upload parts s ≡ sound
    → Verified a upload parts s
unfolding judge
judge-Verified a upload parts s h =
    elim (Result-cases (a.complete_upload s.storage_key upload parts)) [
      | inl (e, failed) ↦ absurd (ground arith)
      | inr (u, done) ↦
          let size =
            judge_size_fits s (a.stat_object s.storage_key)
              (judge_type s (a.sniff_prefix s.storage_key)) (ground arith) in
          let (sniffed, read, passes) = judge_type_passes s (a.sniff_prefix s.storage_key) size.1 in
          (done, size.0, sniffed, read, passes)
    ]

-- How the answer came about.
abbrev pub Completion :
    ℕ → ℕ → ℕ → Assembly → Bool → (ℕ → Db) → Db → Db → Db → Session → Linked → Db → Type 0
Completion now id user a commits polls seen mid db s linked db' =
    ((s.status ≡ completed) × (db' ≡ db))
    ⊎ ((assert_parts_cover (seen.parts id) s.expected_size ≡ ok tt)
        × ((upload : ℕ) × (s.provider_upload_id ≡ some upload)
            × Verified a upload (seen.parts id) s)
        × ((finalize_session now id (some user) commits polls mid db).0 ≡ ok linked)
        × (db'
            ≡ without_parts a.clears id
                (finalize_session now id (some user) commits polls mid db).1))

check_complete-replay :
    (now : ℕ) (s : Session) (l : Linked)
    → check_complete now s ≡ ok (replay l)
    → s.status ≡ completed
unfolding check_complete
check_complete-replay now s l h = ground arith

check_complete-assemble :
    (now upload : ℕ) (s : Session)
    → check_complete now s ≡ ok (assemble upload)
    → s.provider_upload_id ≡ some upload
unfolding check_complete
check_complete-assemble now upload s h = elim (Option-cases s.provider_upload_id) [
  | inl missing ↦ absurd (ground arith)
  | inr (old, found) ↦ ground arith
]

link_ok :
    (clears : Bool) (id : ℕ) (r : Result Linked × Db) (linked : Linked) (db' : Db)
    → link clears id r ≡ (ok linked, db')
    → (r.0 ≡ ok linked) × (db' ≡ without_parts clears id r.1)
link_ok clears id (err e, db) linked db' h = absurd (cc (ap (λ (p : Result Linked × Db). p.0) h))
link_ok true id (ok l, db) linked db' h =
    (ap (λ (p : Result Linked × Db). p.0) h, sym (ap (λ (p : Result Linked × Db). p.1) h))
link_ok false id (ok l, db) linked db' h =
    (ap (λ (p : Result Linked × Db). p.0) h, sym (ap (λ (p : Result Linked × Db). p.1) h))

Verdict-cases :
    (v : Verdict) → (v ≡ sound) ⊎ ((e : Error) × (v ≡ retry e)) ⊎ ((e : Error) × (v ≡ refuse e))
Verdict-cases sound = inl refl
Verdict-cases (retry e) = inr (inl (e, refl))
Verdict-cases (refuse e) = inr (inr (e, refl))

not_ok :
    (e : Error) (linked : Linked) (db db' : Db) (r : Result Linked × Db)
    → r ≡ (ok linked, db')
    → r ≡ (err e, db)
    → ⊥
not_ok e linked db db' r h k = cc (ap (λ (p : Result Linked × Db). p.0) (sym h ∙ k))

module _ (now id user : ℕ) (a : Assembly) (commits : Bool) (polls : ℕ → Db) (seen mid db : Db)
    (linked : Linked) (db' : Db)
    (h : complete_upload_session now id (some user) a commits polls seen mid db ≡ (ok linked, db'))
    (s : Session) (owned : find_owned id user seen ≡ ok s) where
  replayed :
      (l : Linked) → check_complete now s ≡ ok (replay l) → (s.status ≡ completed) × (db' ≡ db)
  unfolding complete_upload_session
  replayed l ready =
      let answer : complete_upload_session now id (some user) a commits polls seen mid db
          ≡ (ok l, db) =
        rw (owned, ready, complete_upload_session) refl in
      (check_complete-replay now s l ready, ap (λ (p : Result Linked × Db). p.1) (sym h ∙ answer))

  assembled :
      (upload : ℕ)
      → check_complete now s ≡ ok (assemble upload)
      → Completion now id user a commits polls seen mid db s linked db'
  unfolding complete_upload_session
  assembled upload ready =
      elim (Result-cases (assert_parts_cover (seen.parts id) s.expected_size)) [
        | inl (e, uncovered) ↦ absurd (
            not_ok e linked db db' _ h (rw (owned, ready, uncovered, complete_upload_session) refl))
        | inr (u, covers) ↦ elim (Verdict-cases (judge a upload (seen.parts id) s)) [
          | inl good ↦
              let answer : complete_upload_session now id (some user) a commits polls seen mid db
                  ≡ link a.clears id (finalize_session now id (some user) commits polls mid db) =
                rw (owned, ready, covers, good, complete_upload_session) refl in
              let linked_ok =
                link_ok a.clears id (finalize_session now id (some user) commits polls mid db)
                  linked db' (sym answer ∙ h) in
              inr (
                covers,
                (
                  upload,
                  check_complete-assemble now upload s ready,
                  judge-Verified a upload (seen.parts id) s good,
                ),
                linked_ok.0,
                linked_ok.1,
              )
          | inr (inl (e, again)) ↦ absurd (
              not_ok e linked db db' _ h
                (rw (owned, ready, covers, again, complete_upload_session) refl))
          | inr (inr (e, parked)) ↦ absurd (
              not_ok e linked (fail_session a.parks a.clears now id db) db' _ h
                (rw (owned, ready, covers, parked, complete_upload_session) refl))
        ]
      ]

-- A completion request that succeeds is its owner's; the session was completed before, and nothing
-- changes, or its ledger covers the expected size, the provider assembled those parts to an object
-- of that size whose type passes the gate, and the finalize that followed gave the answer.
pub complete_verified :
    (now id user : ℕ) (a : Assembly) (commits : Bool) (polls : ℕ → Db) (seen mid db : Db)
    (linked : Linked) (db' : Db)
    → complete_upload_session now id (some user) a commits polls seen mid db ≡ (ok linked, db')
    → (s : Session) × (seen.sessions id ≡ some s)
      × (s.user_id ≡ user)
      × Completion now id user a commits polls seen mid db s linked db'
unfolding complete_upload_session
complete_verified now id user a commits polls seen mid db linked db' h =
    elim (Result-cases (find_owned id user seen)) [
      | inl (e, missing) ↦
          absurd (not_ok e linked db db' _ h (rw (missing, complete_upload_session) refl))
      | inr (s, owned) ↦
          let (found, owner) = find_owned-found id user seen s owned in
          elim (Result-cases (check_complete now s)) [
            | inl (e, refused) ↦
                absurd
                  (not_ok e linked db db' _ h (rw (owned, refused, complete_upload_session) refl))
            | inr (replay l, ready) ↦ (
              s,
              found,
              owner,
              inl (replayed now id user a commits polls seen mid db linked db' h s owned l ready),
            )
            | inr (assemble upload, ready) ↦ (
              s,
              found,
              owner,
              assembled now id user a commits polls seen mid db linked db' h s owned upload ready,
            )
          ]
    ]
