-- ===== src/Upload/Steps/Transitions.antt =====
-- Every step respects `VALID_TRANSITIONS`, never loses a row, and never takes back an offset.
use mothercare_backend.Prelude.{
  ℕ, ◌≡◌, if◌then◌else◌, refl, ap, ◌∙◌, Option, none, some, Bool, true, false, [], ◌∷◌, arith, ◌⊎◌,
  inl, inr, ◌==◌, ==_iff, Bool-cases, subst,
}
use mothercare_backend.Upload.Status.{
  Status, initiated, uploading, completing, completed, failed, cancelled, expired, includes,
  is_valid_transition, is_terminal_status,
}
use mothercare_backend.Upload.Db.{Session, Db, put}
use mothercare_backend.Upload.Session.{release_storage, update_status}
use mothercare_backend.Upload.Transfer.{bump_retry, bumped, advanced}
use mothercare_backend.Upload.Finalize.{claim, park}
use mothercare_backend.Upload.Complete.{fail_session}
use mothercare_backend.Upload.Create.{NewSession, inserted, insert_session-inserted}
use mothercare_backend.Upload.Invariant.{is_open, Later}
use mothercare_backend.Upload.Steps.{
  Sys, Step, Reach, start, create, read, chunk, retry, cancel, expire, release, fail, win, commit,
  abandon, crash, here, next,
}
use mothercare_backend.Upload.Steps.Inversion.{
  update_status-Updated, transfer_tx-Moved, commit_finalize-Committed, update_status_hit,
  update_status_miss,
}
use mothercare_backend.Upload.Steps.Moves.{Later-refl, Later-trans, completed_row, completed-Later}
use mothercare_backend.Upload.Steps.Sound.{IsValid, claimed_at}
use mothercare_backend.Upload.Steps.Kinds.{
  status_row, status_row-Later, bumped-Later, advanced-Later, IsGood-completing, claimed_row,
}
use mothercare_backend.Upload.Steps.Safety.{Reach-IsValid, start-IsValid}

-- What has become of the row `s`.
abbrev pub Follows : Session → Option Session → Type 0
Follows s o =
    (t : Session) × (o ≡ some t)
    × Later s t
    × ((t.status ≡ s.status) ⊎ (is_valid_transition s.status t.status ≡ true))

stays : (s : Session) (o : Option Session) → o ≡ some s → Follows s o
stays s o e = (s, e, Later-refl s, inl refl)

put-Follows :
    (db : Db) (k id : ℕ) (row t s : Session)
    → db.sessions k ≡ some row
    → db.sessions id ≡ some s
    → Later row t
    → (t.status ≡ row.status) ⊎ (is_valid_transition row.status t.status ≡ true)
    → Follows s (put k (some t) db.sessions id)
put-Follows db k id row t s ek es later moved = elim (Bool-cases (id == k)) [
  | inr other ↦ rw other (stays s (db.sessions id) es)
  | inl same_id ↦
      let row-s : row ≡ s = ground (arith, ap db.sessions ((==_iff id k).0 same_id)) in
      rw same_id (subst (λ r. Follows r (some t)) row-s (t, refl, later, moved))
]

from_open :
    (s : Session) (to : Status)
    → includes (initiated ∷ uploading ∷ []) s.status ≡ true
    → (to ≡ cancelled) ⊎ (to ≡ expired)
    → is_valid_transition s.status to ≡ true
unfolding is_valid_transition
from_open s to h (inl e) = rw e (ground arith)
from_open s to h (inr e) = rw e (ground arith)

to_uploading :
    (s : Session) → is_open s.status ≡ true → is_valid_transition s.status uploading ≡ true
unfolding is_valid_transition
to_uploading s h = ground arith

from_completing :
    (s : Session)
    → s.status ≡ completing
    → (is_valid_transition s.status completed ≡ true) × (is_valid_transition s.status failed ≡ true)
unfolding is_valid_transition
from_completing s e = rw e (refl, refl)

from_uploading :
    (s : Session)
    → includes (uploading ∷ []) s.status ≡ true
    → (is_valid_transition s.status completing ≡ true)
      × (is_valid_transition s.status failed ≡ true)
unfolding is_valid_transition
from_uploading s h = ground arith

fail_session-sessions :
    (parks clears : Bool) (now k : ℕ) (db : Db)
    → (fail_session parks clears now k db).sessions
      ≡ (if parks then (update_status now k (uploading ∷ []) failed db).1 else db).sessions
unfolding fail_session
fail_session-sessions parks true now k db = refl
fail_session-sessions parks false now k db = refl

module _ {w : Sys} (v : IsValid w) (id : ℕ) {s : Session} (e : w.db.sessions id ≡ some s) where
  written :
      (k now : ℕ) (to : Status) (row : Session)
      → w.db.sessions k ≡ some row
      → is_valid_transition row.status to ≡ true
      → Follows s (put k (some (status_row now to row)) w.db.sessions id)
  written k now to row found valid =
      put-Follows w.db k id row (status_row now to row) s found e (status_row-Later now to row)
        (inr valid)

  parked-Follows :
      (parks : Bool) (now k : ℕ) (row : Session)
      → w.db.sessions k ≡ some row
      → Follows s (
          (if parks then (update_status now k (uploading ∷ []) failed w.db).1 else w.db).sessions
            id)
  parked-Follows false now k row found = stays s _ e
  parked-Follows true now k row found = elim (Bool-cases (includes (uploading ∷ []) row.status)) [
    | inl hit ↦
        rw
          (ap (λ (p : Bool × Db). p.1)
            (update_status_hit now k (uploading ∷ []) failed w.db row found hit))
          (written k now failed row found (from_uploading row hit).1)
    | inr miss ↦
        rw
          (ap (λ (p : Bool × Db). p.1)
            (update_status_miss now k (uploading ∷ []) failed w.db row found miss))
          (stays s _ e)
  ]

  fail-Follows :
      (parks clears : Bool) (now k : ℕ) (row : Session)
      → w.db.sessions k ≡ some row
      → Follows s ((fail_session parks clears now k w.db).sessions id)
  fail-Follows parks clears now k row found =
      rw (fail_session-sessions parks clears now k w.db) (parked-Follows parks now k row found)

  park-Follows :
      (now k : ℕ) (row : Session)
      → w.db.sessions k ≡ some row
      → row.status ≡ completing
      → Follows s ((park now k w.db).sessions id)
  unfolding park
  park-Follows now k row found busy =
      rw
        (ap (λ (p : Bool × Db). p.1)
          (update_status_hit now k (completing ∷ []) failed w.db row found (rw busy refl)))
        (written k now failed row found (from_completing row busy).1)

  created-Follows : (n : NewSession) → Follows s ((inserted n w.db).sessions id)
  created-Follows n = elim (Bool-cases (id == w.db.next_id)) [
    | inr other ↦ rw other (stays s (w.db.sessions id) e)
    | inl fresh ↦
        let none_yet : w.db.sessions id ≡ none =
          v.unused id
            (let i : id ≡ w.db.next_id = (==_iff id w.db.next_id).0 fresh in omega arith) in
        absurd (cc (e, none_yet))
  ]

  row_moves : {w' : Sys} → Step w w' → Follows s (w'.db.sessions id)
  unfolding bump_retry
  row_moves (create n db' positive h) =
      rw (insert_session-inserted n w.db db' h) (created-Follows n)
  row_moves (read k r h) = stays s _ e
  row_moves (chunk now now' k user offset len number total storage seen db' a p c m) =
      let x = transfer_tx-Moved now' k user offset len number total storage w.db db' m in
      let t = advanced now' x.upload offset len x.row in
      rw x.wrote (
        put-Follows w.db k id x.row t s x.found e
          (advanced-Later now' x.upload offset len x.row x.at_offset)
          (inr (to_uploading x.row x.active)))
  row_moves (retry now k r h) =
      rw (h, bump_retry)
        (put-Follows w.db k id r (bumped now r) s h e (bumped-Later now r) (inl refl))
  row_moves (cancel now k db' h) =
      let u = update_status-Updated now k (initiated ∷ uploading ∷ []) cancelled w.db db' h in
      rw u.wrote
        (written k now cancelled u.row u.found (from_open u.row cancelled u.allowed (inl refl)))
  row_moves (expire now k db' h) =
      let u = update_status-Updated now k (initiated ∷ uploading ∷ []) expired w.db db' h in
      rw u.wrote
        (written k now expired u.row u.found (from_open u.row expired u.allowed (inr refl)))
  row_moves (release true k r h shut) = unfold release_storage in stays s _ e
  row_moves (release false k r h shut) = unfold release_storage in stays s _ e
  row_moves (fail now now' k upload parks clears seen r a c h) =
      fail-Follows parks clears now' k r h
  row_moves (win now k seen db' a c h) =
      unfold claim in
      let u = update_status-Updated now k (uploading ∷ []) completing w.db db' h in
      rw u.wrote (written k now completing u.row u.found (from_uploading u.row u.allowed).0)
  row_moves (commit now k seen others db' held h) =
      let c = commit_finalize-Committed now k seen w.db db' h in
      rw c.sessions (
        put-Follows w.db k id c.row (completed_row now w.db.next_id c.row) s c.found e
          (completed-Later now w.db.next_id c.row)
          (inr (from_completing c.row (IsGood-completing (claimed_at w k v c.found held))).0))
  row_moves (abandon now k seen others held) =
      let (row, found) = claimed_row w k v held in
      park-Follows now k row found (IsGood-completing (claimed_at w k v found held))
  row_moves (crash k seen others held) = stays s _ e

-- In every reachable state, a step keeps each row, its owner, size, key and names; its offset does
-- not go back; and its status stays or takes one of the transitions of `VALID_TRANSITIONS`.
pub Step-Follows :
    {w w' : Sys} (r : Reach start w) (st : Step w w') (id : ℕ) {s : Session}
    → w.db.sessions id ≡ some s
    → Follows s (w'.db.sessions id)
Step-Follows r st id e = row_moves (Reach-IsValid r start-IsValid) id e st

Reach-trans : {u v w : Sys} → Reach u v → Reach v w → Reach u w
Reach-trans r here = r
Reach-trans r (next q st) = next (Reach-trans r q) st

terminal_stuck :
    (s t : Session)
    → is_terminal_status s.status ≡ true
    → (t.status ≡ s.status) ⊎ (is_valid_transition s.status t.status ≡ true)
    → t.status ≡ s.status
unfolding is_terminal_status is_valid_transition
terminal_stuck s t h (inl e) = e
terminal_stuck s t h (inr m) = ground arith

-- Once a session of a reachable state is terminal, its row stays there with the same status, owner
-- and metadata, whatever requests follow.
pub terminal_forever :
    {w w' : Sys} (r : Reach start w) (q : Reach w w') (id : ℕ) {s : Session}
    → w.db.sessions id ≡ some s
    → is_terminal_status s.status ≡ true
    → (t : Session) × (w'.db.sessions id ≡ some t) × (t.status ≡ s.status) × Later s t
terminal_forever r here id {s} e h = (s, e, refl, Later-refl s)
terminal_forever r (next q st) id {s} e h =
    let (t, et, same_status, later) = terminal_forever r q id e h in
    let (u, eu, later', moved) = Step-Follows (Reach-trans r q) st id et in
    (u, eu, terminal_stuck t u (rw same_status h) moved ∙ same_status, Later-trans later later')
