-- ===== src/Blacklist/Revoked.antt =====
-- What a revocation comes to on later requests.
use mothercare_backend.Prelude.{ℕ, ◌+◌, ◌<◌, true, false, ◌&&◌, none, ◌≡◌, ◌↔◌, ◌⊎◌, arith, ◌==◌}
use mothercare_backend.Blacklist.Store.{
  Stores, Network, is_blacklist_configured, check_blacklisted, put_blacklist,
}

-- A token that was revoked while every configured backend answered is refused until it expires,
-- whichever backends answer later, even if none does.
pub put_then_refused :
    (net later : Network) (now now' token ttl : ℕ) (s : Stores)
    → is_blacklist_configured s ≡ true
    → (s.tcp_store.configured ≡ false) ⊎ (net.tcp_answers ≡ true)
    → (s.rest_store.configured ≡ false) ⊎ (net.rest_answers ≡ true)
    → now' < now + ttl
    → ((put_blacklist net now token ttl s).0 ≡ true)
      × (check_blacklisted later now' token (put_blacklist net now token ttl s).1 ≡ true)
unfolding put_blacklist check_blacklisted
put_then_refused net later now now' token ttl s on tcp_up rest_up alive = ground arith

-- A write throws exactly when a backend is configured and none of the configured ones answers.
pub put_throws_iff :
    (net : Network) (now token ttl : ℕ) (s : Stores)
    → ((put_blacklist net now token ttl s).0 ≡ false) ↔ (
        (is_blacklist_configured s ≡ true)
        × ((s.tcp_store.configured && net.tcp_answers) ≡ false)
        × ((s.rest_store.configured && net.rest_answers) ≡ false))
unfolding put_blacklist
put_throws_iff net now token ttl s = ground arith

-- Revoking one token changes no answer about another.
pub put_keeps_others :
    (net later : Network) (now now' token other ttl : ℕ) (s : Stores)
    → (other == token) ≡ false
    → check_blacklisted later now' other (put_blacklist net now token ttl s).1
      ≡ check_blacklisted later now' other s
unfolding put_blacklist check_blacklisted
put_keeps_others net later now now' token other ttl s distinct = ground arith

-- A write that TCP misses and REST takes returns, and yet the revoked token passes as soon as TCP
-- answers again.
pub partial_write_passes :
    (now now' token ttl : ℕ) (s : Stores)
    → s.tcp_store.configured ≡ true
    → s.rest_store.configured ≡ true
    → s.tcp_store.expiries token ≡ none
    → let written =
        put_blacklist (record { tcp_answers = false; rest_answers = true }) now token ttl s in
      (written.0 ≡ true)
      × (check_blacklisted (record { tcp_answers = true; rest_answers = true }) now' token written.1
          ≡ false)
unfolding put_blacklist check_blacklisted
partial_write_passes now now' token ttl s on on' fresh = ground arith
