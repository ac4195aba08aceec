-- ===== src/Portal/Legacy.antt =====
-- The two legacy columns of a teacher's profile against the stored permissions.
use mothercare_backend.Prelude.{Option, none, some, ◌≡◌, arith}
use mothercare_backend.Portal.Types.{Stored, Legacy}
use mothercare_backend.Portal.Resolve.{normalize_stored_permissions, sync_legacy_fields}

-- Where the stored permissions say nothing of parent contacts, the columns that are written back
-- from the normalized permissions are the ones that they were made from; and normalizing again
-- changes nothing, whatever is stored.
pub normalize-sync :
    (legacy : Legacy) (raw : Option Stored)
    → (sync_legacy_fields (normalize_stored_permissions none legacy) ≡ legacy)
      × (normalize_stored_permissions (some (normalize_stored_permissions raw legacy)) legacy
          ≡ normalize_stored_permissions raw legacy)
unfolding sync_legacy_fields normalize_stored_permissions
normalize-sync legacy raw = (ground arith, ground arith)
