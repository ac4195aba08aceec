-- ===== src/Upload/Steps/Safety.antt =====
-- What holds after any interleaving of requests and sweeps.
use mothercare_backend.Prelude.{
  ℕ, ◌+◌, ◌≤◌, ◌≡◌, ◌≢◌, refl, sym, subst, inl, inr, ◌∙◌, none, some, [], arith, true, false,
}
use mothercare_backend.Upload.Status.{cancelled, expired}
use mothercare_backend.Upload.Db.{Session}
use mothercare_backend.Upload.Result.{ok}
use mothercare_backend.Upload.Session.{release_storage}
use mothercare_backend.Upload.Transfer.{assert_parts_cover}
use mothercare_backend.Upload.Create.{insert_session-inserted, inserted, NewSession, row_of}
use mothercare_backend.Upload.Invariant.{
  is_open, IsSound, SoundOrCleared, uncleared, released-IsSound, covered,
}
use mothercare_backend.Upload.Steps.{
  Sys, Step, Reach, start, files_of, create, read, chunk, retry, cancel, expire, release, fail, win,
  commit, abandon, crash, here, next,
}
use mothercare_backend.Upload.Steps.Moves.{Good, IsGood, Claims, by_id}
use mothercare_backend.Upload.Carried.{HasRecord, HasFiles-HasRecord}
use mothercare_backend.Upload.Steps.Sound.{
  IsValid, at_row, at_put, read-IsValid, crash-IsValid, release-IsValid,
}
use mothercare_backend.Upload.Steps.Kinds.{
  claimed_row, close-IsValid, chunk-IsValid, win-IsValid, commit-IsValid, abandon-IsValid,
  fail-IsValid, retry-IsValid,
}

row_of-IsSound : (n : NewSession) → 1 ≤ n.expected_size → IsSound (row_of n) []
row_of-IsSound n positive = record {
  positive = positive;
  within = omega arith;
  fresh = λ _. refl;
  ledger = λ _. (tt, refl);
  aligned = λ _ _. tt;
  provided = λ e. cc;
  linked = refl;
}

inserted-IsValid :
    (w : Sys) (n : NewSession)
    → IsValid w
    → 1 ≤ n.expected_size
    → IsValid (record w { db = inserted n w.db })
inserted-IsValid w n v positive =
    let id = w.db.next_id in
    let old : Good id none (w.db.parts id) (w.reads id) (w.claims id) (files_of id w.db.files) =
      rw (v.unused id (omega arith)) at (v.good id) in
    let row = at_put id (some (row_of n)) w.db.sessions in
    record {
      good =
          by_id
            (λ j.
              Good j ((inserted n w.db).sessions j) (w.db.parts j) (w.reads j) (w.claims j)
                (files_of j w.db.files))
            id
            (rw (row.here, old.0, old.1, old.2, old.3)
              (record {
                sound = uncleared (row_of-IsSound n positive);
                reads = tt;
                claims = tt;
                files = refl;
              }))
            (λ j n. rw (row.others j n) (v.good j));
      unused =
          by_id (λ j. w.db.next_id + 1 ≤ j → (inserted n w.db).sessions j ≡ none) id
            (λ l. absurd (omega arith)) (λ j n l. row.others j n ∙ v.unused j (omega arith));
    }

Step-IsValid : {w w' : Sys} → Step w w' → IsValid w → IsValid w'
Step-IsValid {w} (create n db' positive h) v =
    rw (insert_session-inserted n w.db db' h) (inserted-IsValid w n v positive)
Step-IsValid {w} (read id s e) v = read-IsValid w id v s e
Step-IsValid {w} (chunk now now' id user offset len number total storage seen db' a p c m) v =
    chunk-IsValid w id v now now' user offset len number total storage seen db' a p c m
Step-IsValid {w} (retry now id s e) v = retry-IsValid w id v now s e
Step-IsValid {w} (cancel now id db' h) v = close-IsValid w id v now cancelled db' refl refl h
Step-IsValid {w} (expire now id db' h) v = close-IsValid w id v now expired db' refl refl h
Step-IsValid {w} (release false id s e shut) v = unfold release_storage in v
Step-IsValid {w} (release true id s e shut) v =
    unfold release_storage in
    release-IsValid w id v s [] e
      (let g = at_row w id v e in uncleared (released-IsSound s g.sound.0 [] g.sound.1 shut))
Step-IsValid {w} (fail now now' id upload parks clears seen s a c e) v =
    fail-IsValid w id v now now' upload parks clears seen s a c e
Step-IsValid {w} (win now id seen db' a c h) v = win-IsValid w id v now seen db' a c h
Step-IsValid {w} (commit now id seen others db' held h) v =
    commit-IsValid w id v now seen others db' held h
Step-IsValid {w} (abandon now id seen others held) v = abandon-IsValid w id v now seen others held
Step-IsValid {w} (crash id seen others held) v =
    let (s, found) = claimed_row w id v held in crash-IsValid w id v s seen others found held

pub start-IsValid : IsValid start
start-IsValid = record { good = λ id. (refl, refl, refl, refl); unused = λ id l. refl }

pub Reach-IsValid : {w w' : Sys} → Reach w w' → IsValid w → IsValid w'
Reach-IsValid here v = v
Reach-IsValid (next r st) v = Step-IsValid st (Reach-IsValid r v)

module _ {w : Sys} (r : Reach start w) (id : ℕ) {s : Session} (e : w.db.sessions id ≡ some s) where
  reached : IsGood id s (w.db.parts id) (w.reads id) (w.claims id) (files_of id w.db.files)
  reached = at_row w id (Reach-IsValid r start-IsValid) e

  -- In every reachable state, every session is sound: its offset is at most its size, an untouched
  -- session has no bytes, an open session's ledger is numbered from 1 without a gap, has whole parts
  -- but for the last and adds up to its offset, an uploading one has a provider upload, and exactly
  -- the completed ones name a file record. The one exception is the ledger of a session that is
  -- uploading although all its bytes have arrived: it may be gone, because a failed completion drops it
  -- even if its own write of the status was lost.
  pub Reach-IsSound : SoundOrCleared s (w.db.parts id)
  Reach-IsSound = reached.sound

  -- However finalizations interleave, crash or fail, a completed session has exactly one file record,
  -- the one that its row names, and any other session has none. The record carries the row's name, key,
  -- purpose, type, size, owner and entity, and its metadata are the row's, with the room, the year and
  -- the session's id under their own keys.
  pub Reach-HasFiles : HasRecord id s (files_of id w.db.files)
  Reach-HasFiles = HasFiles-HasRecord id s (files_of id w.db.files) reached.files

  -- In every reachable state at most one request holds the finalize claim of a session; while it
  -- does, the session is completing, and the row that the request read was byte-full and is an earlier
  -- state of the session.
  pub Reach-Claims : Claims s (w.claims id)
  Reach-Claims = reached.claims

  -- In every reachable state, the ledger of an open session whose bytes have all arrived passes
  -- `assertPartsCover`, unless it is empty.
  pub Reach-covered :
      w.db.parts id ≢ []
      → is_open s.status ≡ true
      → s.bytes_uploaded ≡ s.expected_size
      → assert_parts_cover (w.db.parts id) s.expected_size ≡ ok tt
  Reach-covered parts u full = covered s (w.db.parts id) (whole reached.sound) u full
    where
      whole : SoundOrCleared s (w.db.parts id) → IsSound s (w.db.parts id)
      whole (qs, h, inl same_ledger) = subst (IsSound s) (sym same_ledger) h
      whole (qs, h, inr (gone, busy, full)) = absurd (parts gone)
