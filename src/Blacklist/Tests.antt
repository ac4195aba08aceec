-- ===== src/Blacklist/Tests.antt =====
-- Two servers that are both configured, and a token that is revoked for an hour.
use mothercare_backend.Prelude.{true, false, none, ◌≡◌, refl, inr, arith}
use mothercare_backend.Blacklist.Store.{Backend, Stores, Network, check_blacklisted, put_blacklist}
use mothercare_backend.Blacklist.Revoked.{put_then_refused, partial_write_passes}

abbrev fresh_server : Backend
fresh_server = record { configured = true; expiries = λ t. none }

abbrev servers : Stores
servers = record { tcp_store = fresh_server; rest_store = fresh_server }

abbrev both_up : Network
both_up = record { tcp_answers = true; rest_answers = true }

abbrev tcp_down : Network
tcp_down = record { tcp_answers = false; rest_answers = true }

abbrev both_down : Network
both_down = record { tcp_answers = false; rest_answers = false }

put_then_refused_example :
    ((put_blacklist both_up 100 42 3600 servers).0 ≡ true)
    × (check_blacklisted tcp_down 200 42 (put_blacklist both_up 100 42 3600 servers).1 ≡ true)
put_then_refused_example =
    put_then_refused both_up tcp_down 100 200 42 3600 servers refl (inr refl) (inr refl)
      (omega arith)

partial_write_passes_example :
    ((put_blacklist tcp_down 100 42 3600 servers).0 ≡ true)
    × (check_blacklisted both_up 200 42 (put_blacklist tcp_down 100 42 3600 servers).1 ≡ false)
partial_write_passes_example = partial_write_passes 100 200 42 3600 servers refl refl refl
