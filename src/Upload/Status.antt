-- ===== src/Upload/Status.antt =====
-- The state machine of an upload session, and expiry as it is derived on reads.
use mothercare_backend.Prelude.{ℕ, Bool, true, false, ◌||◌, List, [], ◌∷◌, ◌==◌}

-- `enum UploadSessionStatus`
pub data Status : Type 0 where
  initiated uploading completing completed failed cancelled expired : Status

abbrev pub tag : Status → ℕ
tag initiated = 0
tag uploading = 1
tag completing = 2
tag completed = 3
tag failed = 4
tag cancelled = 5
tag expired = 6

-- `a === b` on the enum.
abbrev pub same : Status → Status → Bool
same a b = tag a == tag b

abbrev pub includes : List Status → Status → Bool
includes [] s = false
includes (t ∷ ts) s = same t s || includes ts s

-- `ACTIVE_STATUSES`
abbrev pub active_statuses : List Status
active_statuses = initiated ∷ uploading ∷ completing ∷ []

-- `VALID_TRANSITIONS`
abbrev pub valid_transitions : Status → List Status
valid_transitions initiated = uploading ∷ failed ∷ cancelled ∷ expired ∷ []
valid_transitions uploading = uploading ∷ completing ∷ failed ∷ cancelled ∷ expired ∷ []
valid_transitions completing = completed ∷ failed ∷ []
valid_transitions completed = []
valid_transitions failed = []
valid_transitions cancelled = []
valid_transitions expired = []

abbrev is_empty : List Status → Bool
is_empty [] = true
is_empty (s ∷ ss) = false

unfoldable pub is_terminal_status : Status → Bool
is_terminal_status s = is_empty (valid_transitions s)

-- The test of `assertValidTransition`, which throws when it is false.
unfoldable pub is_valid_transition : Status → Status → Bool
is_valid_transition from to = includes (valid_transitions from) to
