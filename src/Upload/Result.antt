-- ===== src/Upload/Result.antt =====
-- The errors that the upload services throw, and what their `await` chains return.
use mothercare_backend.Prelude.{
  ℕ, if◌then◌else◌, sym, ap, ◌∙◌, Option, none, some, Bool, ◌≡◌, refl, ◌⊎◌, inl, inr,
}
use mothercare_backend.Upload.Status.{Status}

-- One constructor for each `throw`, with the values that its message shows.
pub data Error : Type 0 where
  unauthenticated not_found session_expired : Error
  unavailable : Error
  offset_missing offset_malformed length_missing length_malformed chunk_too_large : Error
  already : Status → Error
  invalid_transition : Status → Status → Error
  finalization_in_progress no_bytes no_provider_upload nothing_to_complete : Error
  stale_offset : ℕ → Error
  offset_exceeds chunk_not_full not_aligned : Error
  chunk_exceeds : ℕ → Error
  incomplete : ℕ → ℕ → Error
  concurrent_transfer : ℕ → Error
  no_parts not_contiguous inconsistent_sizes : Error
  parts_cover : ℕ → ℕ → Error
  storage_failed completion_failed verification_failed sniff_failed type_refused : Error
  finalize_timeout : Error
  -- Thrown by the storage provider or by the database, with no HTTP status of its own.
  provider : Bool → Error
  database : Error

-- The `status` field of what is thrown; `none` has none.
unfoldable pub http_status : Error → Option ℕ
http_status unauthenticated = some 401
http_status not_found = some 404
http_status session_expired = some 410
http_status offset_missing = some 400
http_status offset_malformed = some 400
http_status length_missing = some 411
http_status length_malformed = some 400
http_status chunk_too_large = some 413
http_status offset_exceeds = some 413
http_status (chunk_exceeds n) = some 413
http_status chunk_not_full = some 400
http_status not_contiguous = some 500
http_status inconsistent_sizes = some 500
http_status storage_failed = some 502
http_status completion_failed = some 502
http_status verification_failed = some 502
http_status sniff_failed = some 502
http_status type_refused = some 422
http_status (provider retryable) = none
http_status database = none
http_status _ = some 409

-- What a request comes to: its throw, or the value that it goes on with.
pub data Result {κ} (V : Type κ) : Type κ where
  err : Error → Result V
  ok : V → Result V

-- `await`: the throw ends the chain.
infixl 5 ◌>>=◌ ◌>>◌
abbrev pub ◌>>=◌ {κ μ} : {V : Type κ} {W : Type μ} → Result V → (V → Result W) → Result W
(err thrown) >>= rest = err thrown
(ok value) >>= rest = rest value

-- A check of which only the throw matters.
abbrev pub ◌>>◌ {κ} : {W : Type κ} → Result (Unit {0}) → Result W → Result W
(err thrown) >> rest = err thrown
(ok checked) >> rest = rest

-- `value ?? throw`
abbrev pub or_throw {κ} : {V : Type κ} → Option V → Error → Result V
or_throw (some value) thrown = ok value
or_throw none thrown = err thrown

-- `if (!holds) throw`
abbrev pub guard : Bool → Error → Result (Unit {0})
guard holds thrown = or_throw (if holds then some tt else none) thrown

pub Result-cases {κ} :
    {V : Type κ} (answer : Result V)
    → ((thrown : Error) × (answer ≡ err thrown)) ⊎ ((value : V) × (answer ≡ ok value))
Result-cases (ok value) = inr (value, refl)
Result-cases (err thrown) = inl (thrown, refl)

-- A chain that succeeds has a first step that succeeds.
pub both_ok {κ μ} :
    {V : Type κ} {W : Type μ} (first : Result V) (rest : V → Result W) {last : W}
    → (first >>= rest) ≡ ok last
    → (value : V) × (first ≡ ok value) × (rest value ≡ ok last)
both_ok first rest h = elim (Result-cases first) [
  | inl (thrown, failed) ↦ absurd (cc (failed, h))
  | inr (value, passed) ↦ (value, passed, sym (ap (λ m. m >>= rest) passed) ∙ h)
]
