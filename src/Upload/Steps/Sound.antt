-- ===== src/Upload/Steps/Sound.antt =====
-- The invariant of the whole system, and how the writes of the atomic steps keep it.
use mothercare_backend.Prelude.{
  ℕ, ◌≤◌, ◌≡◌, refl, subst, ◌∙◌, none, some, false, List, ◌∷◌, arith, ◌==◌, ==_iff,
}
use mothercare_backend.Upload.Db.{Session, Part, FileRecord, put, put_session, put_parts}
use mothercare_backend.Upload.Invariant.{SoundOrCleared}
use mothercare_backend.Upload.Steps.{Sys, files_of}
use mothercare_backend.Upload.Steps.Moves.{Good, IsGood, Later-refl, by_id, fewer_claims}

-- Every session is good, and the ids to come have no row.
pub record IsValid (w : Sys) : Type 0 where
  pub good :
      (id : ℕ)
      → Good id
          (w.db.sessions id)
          (w.db.parts id)
          (w.reads id)
          (w.claims id)
          (files_of id w.db.files)
  pub unused : (id : ℕ) → w.db.next_id ≤ id → w.db.sessions id ≡ none

pub at_row :
    (w : Sys) (id : ℕ) {s : Session}
    → IsValid w
    → w.db.sessions id ≡ some s
    → IsGood id s (w.db.parts id) (w.reads id) (w.claims id) (files_of id w.db.files)
at_row w id v e =
    subst (λ o. Good id o (w.db.parts id) (w.reads id) (w.claims id) (files_of id w.db.files)) e
      (v.good id)

pub claimed_at :
    (w : Sys) (id : ℕ) {s c : Session} {cs : List Session}
    → IsValid w
    → w.db.sessions id ≡ some s
    → w.claims id ≡ c ∷ cs
    → IsGood id s (w.db.parts id) (w.reads id) (c ∷ cs) (files_of id w.db.files)
claimed_at w id {s} v e held =
    subst (λ x. IsGood id s (w.db.parts id) (w.reads id) x (files_of id w.db.files)) held
      (at_row w id v e)

-- `t'` is `t` with the value `v` at `id`.
pub record At {A : Type 0} (id : ℕ) (t : ℕ → A) (v : A) (t' : ℕ → A) : Type 0 where
  pub here : t' id ≡ v
  pub others : (j : ℕ) → (j == id) ≡ false → t' j ≡ t j

pub at_put : {A : Type 0} (id : ℕ) (v : A) (t : ℕ → A) → At id t v (put id v t)
at_put id v t = record { here = rw ((==_iff id id).1 refl); others = λ j n. rw n }

pub at_same : {A : Type 0} (id : ℕ) (v : A) (t : ℕ → A) → t id ≡ v → At id t v t
at_same id v t e = record { here = e; others = λ j n. refl }

-- `w'` differs from `w` at one session only.
pub record Change (w w' : Sys) (id : ℕ) (t : Session) (qs : List Part) (rs cs : List Session)
    (fs : List (ℕ × FileRecord)) : Type 0 where
  pub sessions : At id w.db.sessions (some t) w'.db.sessions
  pub parts : At id w.db.parts qs w'.db.parts
  pub reads : At id w.reads rs w'.reads
  pub claims : At id w.claims cs w'.claims
  pub files : At id (λ j. files_of j w.db.files) fs (λ j. files_of j w'.db.files)
  pub ids : w.db.next_id ≤ w'.db.next_id

pub Change-IsValid :
    (w w' : Sys) (id : ℕ) {s t : Session} {qs : List Part} {rs cs : List Session}
    {fs : List (ℕ × FileRecord)}
    → IsValid w
    → w.db.sessions id ≡ some s
    → Change w w' id t qs rs cs fs
    → IsGood id t qs rs cs fs
    → IsValid w'
Change-IsValid w w' id {s} v e c g = record {
  good =
      by_id
        (λ j.
          Good j (w'.db.sessions j) (w'.db.parts j) (w'.reads j) (w'.claims j)
            (files_of j w'.db.files))
        id (rw (c.sessions.here, c.parts.here, c.reads.here, c.claims.here, c.files.here) g)
        (λ j n.
          rw
            (
              c.sessions.others j n,
              c.parts.others j n,
              c.reads.others j n,
              c.claims.others j n,
              c.files.others j n,
            )
            (v.good j));
  unused =
      by_id (λ j. w'.db.next_id ≤ j → w'.db.sessions j ≡ none) id
        (λ l.
          let gone : w.db.sessions id ≡ none = v.unused id (omega (arith, c.ids)) in
          absurd (cc (e, gone)))
        (λ j n l. c.sessions.others j n ∙ v.unused j (omega (arith, c.ids)));
}

module _ (w : Sys) (id : ℕ) (v : IsValid w) where
  -- A step that writes the row and the ledger.
  pub write_row :
      (s t : Session) (qs : List Part)
      → w.db.sessions id ≡ some s
      → IsGood id t qs (w.reads id) (w.claims id) (files_of id w.db.files)
      → IsValid (record w { db = put_parts id qs (put_session id t w.db) })
  write_row s t qs e g =
      Change-IsValid w _ id v e
        (record {
          sessions = at_put id (some t) w.db.sessions;
          parts = at_put id qs w.db.parts;
          reads = at_same id _ w.reads refl;
          claims = at_same id _ w.claims refl;
          files = at_same id _ (λ j. files_of j w.db.files) refl;
          ids = omega arith;
        })
        g

  -- A step that writes the row, and perhaps the claims.
  pub write_claim :
      (s t : Session) (cs : List Session)
      → w.db.sessions id ≡ some s
      → IsGood id t (w.db.parts id) (w.reads id) cs (files_of id w.db.files)
      → IsValid (record w { db = put_session id t w.db; claims = put id cs w.claims })
  write_claim s t cs e g =
      Change-IsValid w _ id v e
        (record {
          sessions = at_put id (some t) w.db.sessions;
          parts = at_same id _ w.db.parts refl;
          reads = at_same id _ w.reads refl;
          claims = at_put id cs w.claims;
          files = at_same id _ (λ j. files_of j w.db.files) refl;
          ids = omega arith;
        })
        g

  pub write_status :
      (s t : Session)
      → w.db.sessions id ≡ some s
      → IsGood id t (w.db.parts id) (w.reads id) (w.claims id) (files_of id w.db.files)
      → IsValid (record w { db = put_session id t w.db })
  write_status s t e g =
      Change-IsValid w _ id v e
        (record {
          sessions = at_put id (some t) w.db.sessions;
          parts = at_same id _ w.db.parts refl;
          reads = at_same id _ w.reads refl;
          claims = at_same id _ w.claims refl;
          files = at_same id _ (λ j. files_of j w.db.files) refl;
          ids = omega arith;
        })
        g

  pub read-IsValid :
      (s : Session)
      → w.db.sessions id ≡ some s
      → IsValid (record w { reads = put id (s ∷ w.reads id) w.reads })
  read-IsValid s e =
      Change-IsValid w _ id v e
        (record {
          sessions = at_same id _ w.db.sessions e;
          parts = at_same id _ w.db.parts refl;
          reads = at_put id (s ∷ w.reads id) w.reads;
          claims = at_same id _ w.claims refl;
          files = at_same id _ (λ j. files_of j w.db.files) refl;
          ids = omega arith;
        })
        (let g = at_row w id v e in
          record {
            sound = g.sound;
            reads = (Later-refl s, g.reads);
            claims = g.claims;
            files = g.files;
          })

  pub crash-IsValid :
      (s c : Session) (cs : List Session)
      → w.db.sessions id ≡ some s
      → w.claims id ≡ c ∷ cs
      → IsValid (record w { claims = put id cs w.claims })
  crash-IsValid s c cs e held =
      Change-IsValid w _ id v e
        (record {
          sessions = at_same id _ w.db.sessions e;
          parts = at_same id _ w.db.parts refl;
          reads = at_same id _ w.reads refl;
          claims = at_put id cs w.claims;
          files = at_same id _ (λ j. files_of j w.db.files) refl;
          ids = omega arith;
        })
        (fewer_claims c cs (claimed_at w id v e held))

  pub release-IsValid :
      (s : Session) (qs : List Part)
      → w.db.sessions id ≡ some s
      → SoundOrCleared s qs
      → IsValid (record w { db = put_parts id qs w.db })
  release-IsValid s qs e sound =
      Change-IsValid w _ id v e
        (record {
          sessions = at_same id _ w.db.sessions e;
          parts = at_put id qs w.db.parts;
          reads = at_same id _ w.reads refl;
          claims = at_same id _ w.claims refl;
          files = at_same id _ (λ j. files_of j w.db.files) refl;
          ids = omega arith;
        })
        (let g = at_row w id v e in
          record { sound = sound; reads = g.reads; claims = g.claims; files = g.files })
