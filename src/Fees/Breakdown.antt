-- ===== src/Fees/Breakdown.antt =====
-- src/modules/admin/services/fee-breakdown.utils.ts: the heads of a month's fee, merged by their key.
use Prim.Native.Char.{code}
use Prim.Native.String.{String, ◌++◌ as glue}
use text.Mathlib.Text.{◌==◌ as str_eq}
use mothercare_backend.Prelude.{
  ℕ, ◌+◌, Option, none, some, Bool, true, false, ◌&&◌, ◌||◌, List, [], ◌∷◌, ◌==◌, leb,
  if◌then◌else◌,
}
use mothercare_backend.Fees.Rows.{HeadRow}

abbrev pub is_empty : String → Bool
is_empty String.[] = true
is_empty (String.◌∷◌ c s) = false

-- The white space and line ends that `trim` removes.
abbrev is_space : ℕ → Bool
is_space c =
    (leb 9 c && leb c 13)
    || (c == 32)
    || (c == 160)
    || (c == 5760)
    || (leb 8192 c && leb c 8202)
    || (c == 8232)
    || (c == 8233)
    || (c == 8239)
    || (c == 8287)
    || (c == 12288)
    || (c == 65279)

unfoldable trim_start : String → String
trim_start String.[] = ""
trim_start (String.◌∷◌ c s) =
    let rest = trim_start s in if is_space (code c) then rest else String.◌∷◌ c s

unfoldable trim_end : String → String
trim_end String.[] = ""
trim_end (String.◌∷◌ c s) =
    let rest = trim_end s in if is_space (code c) && is_empty rest then "" else String.◌∷◌ c rest

-- `trim`
unfoldable pub trim : String → String
unfolding trim_start trim_end
trim s = trim_end (trim_start s)

-- `a || b` on strings
abbrev pub or_else : String → Option String → String
or_else String.[] none = ""
or_else String.[] (some s) = s
or_else (String.◌∷◌ c a) b = String.◌∷◌ c a

-- A row under its key in the `Map`.
pub record Entry : Type 0 where
  pub key : String
  pub row : HeadRow

-- `(h?.name || h?.feeHeadId || '').trim()`
unfoldable pub row_name : HeadRow → String
unfolding trim
row_name h = trim (or_else h.name h.fee_head_id)

abbrev pub key_or : Option String → String → String
key_or none other = other
key_or (some id) other = id

-- `h.feeHeadId || ``name:${name}`
unfoldable pub row_key : HeadRow → String
unfolding row_name
row_key h = key_or h.fee_head_id (glue "name:" (row_name h))

-- `prev.amount += h.amount`, or a new entry at the end of the map.
unfoldable pub add_head : String → HeadRow → List Entry → List Entry
add_head key h [] = record { key = key; row = h } ∷ []
add_head key h (e ∷ es) =
    let rest = add_head key h es in
    if str_eq e.key key
    then record { key = e.key; row = record e.row { amount = e.row.amount + h.amount } } ∷ es
    else e ∷ rest

abbrev or_other : String → String
or_other String.[] = "OTHER"
or_other (String.◌∷◌ c s) = String.◌∷◌ c s

-- The row that the map keeps: the trimmed name, and `category || 'OTHER'`.
unfoldable pub stored_row : HeadRow → HeadRow
unfolding row_name
stored_row h = record h { name = row_name h; category = or_other h.category }

-- One turn of the loop: `if (!name) continue`.
unfoldable pub merge_head : HeadRow → List Entry → List Entry
unfolding row_name row_key add_head stored_row
merge_head h es = if is_empty (row_name h) then es else add_head (row_key h) (stored_row h) es

abbrev pub merge_heads : List HeadRow → List Entry → List Entry
merge_heads [] es = es
merge_heads (h ∷ hs) es = merge_heads hs (merge_head h es)

abbrev pub rows_of : List Entry → List HeadRow
rows_of [] = []
rows_of (e ∷ es) = e.row ∷ rows_of es

-- `mergeFeeHeadBreakdown`, where a missing name or category of the stored JSON is the empty string
-- and a missing amount is 0.
unfoldable pub merge_fee_head_breakdown : List HeadRow → List HeadRow
unfolding merge_head
merge_fee_head_breakdown hs = rows_of (merge_heads hs [])
