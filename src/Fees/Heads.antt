-- ===== src/Fees/Heads.antt =====
-- The selection of heads and extra items of the current month: `normalizeAllocateHeadsInput` of
-- src/modules/admin/services/fee-breakdown.utils.ts, and the checks of the allocation handlers of
-- src/modules/admin/routes/fee.routes.ts.
use Prim.Native.String.{String, ◌++◌ as glue}
use text.Mathlib.Text.{◌==◌ as str_eq}
use mothercare_backend.Prelude.{
  ℕ, ◌+◌, Option, none, some, Bool, true, false, not, ◌&&◌, ◌||◌, List, [], ◌∷◌, ◌==◌, ltb, leb,
  sum_by, if◌then◌else◌,
}
use mothercare_backend.Prelude.Outcome.{Outcome, ok, ◌>>=◌, ◌>>◌, guard, or_throw}
use mothercare_backend.Fees.Rows.{HeadRow, ExtraItem, Fee}
use mothercare_backend.Fees.Breakdown.{trim, is_empty, or_else, merge_fee_head_breakdown}
use mothercare_backend.Fees.Db.{HeadAllocation}
use mothercare_backend.Fees.Receipts.{FeeError, head_missing, exceeds_due}

-- `AllocateHeadInput`; an absent or empty `feeHeadId` is `none`, an absent name is empty.
pub record HeadInput : Type 0 where
  pub fee_head_id : Option String
  pub head_name : String
  pub amount_paise : ℕ

pub record ExtraInput : Type 0 where
  pub fee_extra_item_id : ℕ
  pub amount_paise : ℕ

-- `(h?.headName || h?.feeHeadId || '').trim()`
unfoldable pub input_name : HeadInput → String
unfolding trim
input_name h = trim (or_else h.head_name h.fee_head_id)

abbrev tagged_key : Option String → String → String
tagged_key (some id) name = glue "id:" id
tagged_key none name = glue "name:" name

-- `h.feeHeadId ? ``id:${h.feeHeadId}`` : ``name:${name}`
unfoldable pub input_key : HeadInput → String
unfolding input_name
input_key h = tagged_key h.fee_head_id (input_name h)

-- `prev.amountPaise += amt`, or a new entry at the end of the map.
unfoldable pub add_input :
    String → HeadInput → List (String × HeadInput) → List (String × HeadInput)
add_input key h [] = (key, h) ∷ []
add_input key h (e ∷ es) =
    let rest = add_input key h es in
    if str_eq e.0 key
    then (e.0, record e.1 { amount_paise = e.1.amount_paise + h.amount_paise }) ∷ es
    else e ∷ rest

unfoldable pub merge_inputs : List HeadInput → List (String × HeadInput) → List (String × HeadInput)
unfolding input_name input_key add_input
merge_inputs [] es = es
merge_inputs (h ∷ hs) es =
    merge_inputs hs (if is_empty (input_name h) then es else add_input (input_key h) h es)

abbrev pub values : List (String × HeadInput) → List HeadInput
values [] = []
values (e ∷ es) = e.1 ∷ values es

-- `normalizeAllocateHeadsInput`
unfoldable pub normalize_allocate_heads_input : List HeadInput → List HeadInput
unfolding merge_inputs
normalize_allocate_heads_input hs = values (merge_inputs hs [])

-- `.filter((h) => h.amountPaise > 0)`
abbrev pub positive_heads : List HeadInput → List HeadInput
positive_heads [] = []
positive_heads (h ∷ hs) =
    let rest = positive_heads hs in if ltb 0 h.amount_paise then h ∷ rest else rest

abbrev pub positive_extras : List ExtraInput → List ExtraInput
positive_extras [] = []
positive_extras (e ∷ es) =
    let rest = positive_extras es in if ltb 0 e.amount_paise then e ∷ rest else rest

-- One element of `allocInputs`.
pub record AllocInput : Type 0 where
  pub head_id : Option String
  pub extra_id : Option ℕ
  pub amount : ℕ

abbrev same_id : Option String → Option String → Bool
same_id (some a) (some b) = str_eq a b
same_id _ _ = false

-- `(h.feeHeadId && b.feeHeadId === h.feeHeadId) || (h.headName && b.name === h.headName)`
abbrev pub matches : HeadInput → HeadRow → Bool
matches h b =
    same_id h.fee_head_id b.fee_head_id || (not (is_empty h.head_name) && str_eq b.name h.head_name)

unfoldable pub find_head : HeadInput → List HeadRow → Option HeadRow
find_head h [] = none
find_head h (b ∷ bs) = let rest = find_head h bs in if matches h b then some b else rest

unfoldable pub find_extra : ℕ → List ExtraItem → Option ExtraItem
find_extra id [] = none
find_extra id (e ∷ es) = let rest = find_extra id es in if e.id == id then some e else rest

-- What the live allocations of the fee hold for a head: `priorByHead.get('h:' + id)`.
abbrev pub held_by_head : ℕ → String → HeadAllocation → ℕ
held_by_head fee_id id a =
    if (a.student_fee_id == fee_id) && not a.reverted && same_id a.fee_head_id (some id)
    then a.amount
    else 0

abbrev no_head : Option String → Bool
no_head none = true
no_head (some id) = false

abbrev is_item : ℕ → Option ℕ → Bool
is_item id none = false
is_item id (some i) = i == id

-- The same for an extra item: `priorByHead.get('e:' + id)`.
abbrev pub held_by_extra : ℕ → ℕ → HeadAllocation → ℕ
held_by_extra fee_id id a =
    if (a.student_fee_id == fee_id)
      && not a.reverted
      && no_head a.fee_head_id
      && is_item id a.fee_extra_item_id
    then a.amount
    else 0

-- `already`: no allocation is stored under the key `n:` of a head without id.
abbrev pub already_on : ℕ → Option String → List HeadAllocation → ℕ
already_on fee_id none prior = 0
already_on fee_id (some id) prior = sum_by (held_by_head fee_id id) prior

-- The check of one selected head.
unfoldable pub check_head : Fee → List HeadAllocation → HeadInput → Outcome FeeError AllocInput
unfolding find_head merge_fee_head_breakdown
check_head f prior h = do
  b ← or_throw (find_head h (merge_fee_head_breakdown f.fee_head_breakdown)) head_missing
  guard
      (ltb 0 h.amount_paise && leb (already_on f.id b.fee_head_id prior + h.amount_paise) b.amount)
      exceeds_due
  ok (record { head_id = b.fee_head_id; extra_id = none; amount = h.amount_paise })

-- The check of one selected extra item.
unfoldable pub check_extra : Fee → List HeadAllocation → ExtraInput → Outcome FeeError AllocInput
unfolding find_extra
check_extra f prior e = do
  item ← or_throw (find_extra e.fee_extra_item_id f.extra_items) head_missing
  guard
      (ltb 0 e.amount_paise
        && leb (sum_by (held_by_extra f.id e.fee_extra_item_id) prior + e.amount_paise) item.amount)
      exceeds_due
  ok (record { head_id = none; extra_id = some e.fee_extra_item_id; amount = e.amount_paise })

-- The loops over the selection: the first check that fails throws.
unfoldable pub check_heads :
    Fee → List HeadAllocation → List HeadInput → Outcome FeeError (List AllocInput)
unfolding check_head
check_heads f prior [] = ok []
check_heads f prior (h ∷ hs) = do
  a ← check_head f prior h
  rest ← check_heads f prior hs
  ok (a ∷ rest)

unfoldable pub check_extras :
    Fee → List HeadAllocation → List ExtraInput → Outcome FeeError (List AllocInput)
unfolding check_extra
check_extras f prior [] = ok []
check_extras f prior (e ∷ es) = do
  a ← check_extra f prior e
  rest ← check_extras f prior es
  ok (a ∷ rest)

-- `paymentHeadAllocation.create` for each of them.
abbrev pub allocation_rows : ℕ → ℕ → List AllocInput → List HeadAllocation
allocation_rows payment_id fee_id [] = []
allocation_rows payment_id fee_id (a ∷ inputs) =
    record {
      payment_id = payment_id;
      student_fee_id = fee_id;
      fee_head_id = a.head_id;
      fee_extra_item_id = a.extra_id;
      amount = a.amount;
      reverted = false;
    }
    ∷ allocation_rows payment_id fee_id inputs
