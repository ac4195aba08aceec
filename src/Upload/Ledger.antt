-- ===== src/Upload/Ledger.antt =====
-- The part ledger of an upload that follows the offset protocol, against the checks that
-- `assertPartsCover` makes of it.
use mothercare_backend.Prelude.{
  ℕ, ◌+◌, ◌*◌, ◌≡◌, refl, ◌≢◌, ◌↔◌, List, [], ◌∷◌, ◌++◌, arith, length,
}
use mothercare_backend.Upload.Db.{Part, upsert}
use mothercare_backend.Upload.Result.{ok}
use mothercare_backend.Upload.Transfer.{part_size, check_parts, total_size, assert_parts_cover}

-- Parts i + 1, i + 2, … , each of exactly the part size.
abbrev pub Full : ℕ → List Part → Type 0
Full i [] = Unit
Full i (p ∷ ps) = (p.part_number ≡ i + 1) × (p.size ≡ part_size) × Full (i + 1) ps

-- Parts i + 1, i + 2, … , where only the last may have another size.
abbrev pub Ledger : ℕ → List Part → Type 0
Ledger i [] = Unit
Ledger i (p ∷ []) = p.part_number ≡ i + 1
Ledger i (p ∷ q ∷ ps) = (p.part_number ≡ i + 1) × (p.size ≡ part_size) × Ledger (i + 1) (q ∷ ps)

pub Full-Ledger : (i : ℕ) (ps : List Part) → Full i ps → Ledger i ps
Full-Ledger i [] h = tt
Full-Ledger i (p ∷ []) h = h.0
Full-Ledger i (p ∷ q ∷ ps) h = (h.0, h.1, Full-Ledger (i + 1) (q ∷ ps) h.2)

pub total_size-Full : (i : ℕ) (ps : List Part) → Full i ps → total_size ps ≡ length ps * part_size
total_size-Full i [] h = omega arith
total_size-Full i (p ∷ ps) h = omega (arith, total_size-Full (i + 1) ps h.2)

-- A part behind the last one is appended.
pub upsert-Full :
    (i : ℕ) (ps : List Part) (p : Part)
    → Full i ps
    → p.part_number ≡ i + length ps + 1
    → upsert p ps ≡ ps ++ p ∷ []
unfolding upsert
upsert-Full i [] p h e = refl
upsert-Full i (q ∷ qs) p h e = ground (arith, upsert-Full (i + 1) qs p h.2)

pub Full-append :
    (i : ℕ) (ps : List Part) (p : Part)
    → Full i ps
    → p.part_number ≡ i + length ps + 1
    → p.size ≡ part_size
    → Full i (ps ++ p ∷ [])
Full-append i [] p h e s = (omega arith, s, tt)
Full-append i (q ∷ qs) p h e s = (h.0, h.1, Full-append (i + 1) qs p h.2 (omega arith) s)

pub Ledger-append :
    (i : ℕ) (ps : List Part) (p : Part)
    → Full i ps
    → p.part_number ≡ i + length ps + 1
    → Ledger i (ps ++ p ∷ [])
Ledger-append i [] p h e = omega arith
Ledger-append i (q ∷ []) p h e = (h.0, h.1, omega arith)
Ledger-append i (q ∷ r ∷ qs) p h e = (h.0, h.1, Ledger-append (i + 1) (r ∷ qs) p h.2 (omega arith))

pub check_parts-Ledger : (i : ℕ) (ps : List Part) → Ledger i ps → check_parts i ps ≡ ok tt
unfolding check_parts
check_parts-Ledger i [] h = refl
check_parts-Ledger i (p ∷ []) h = ground arith
check_parts-Ledger i (p ∷ q ∷ ps) h = ground (arith, check_parts-Ledger (i + 1) (q ∷ ps) h.2)

pub Ledger-check_parts : (i : ℕ) (ps : List Part) → check_parts i ps ≡ ok tt → Ledger i ps
unfolding check_parts
Ledger-check_parts i [] h = tt
Ledger-check_parts i (p ∷ []) h = ground arith
Ledger-check_parts i (p ∷ q ∷ ps) h = ground (arith, Ledger-check_parts (i + 1) (q ∷ ps))

-- The ledger passes exactly when it has a part, its parts are numbered from 1 without a gap, all but
-- the last are of the part size, and together they have the expected size.
pub assert_parts_cover_iff :
    (ps : List Part) (expected : ℕ)
    → (assert_parts_cover ps expected ≡ ok tt)
      ↔ ((ps ≢ []) × Ledger 0 ps × (total_size ps ≡ expected))
unfolding assert_parts_cover
assert_parts_cover_iff [] expected = ground arith
assert_parts_cover_iff (p ∷ ps) expected =
    ground (arith, check_parts-Ledger 0 (p ∷ ps), Ledger-check_parts 0 (p ∷ ps))
