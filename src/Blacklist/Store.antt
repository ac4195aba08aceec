-- ===== src/Blacklist/Store.antt =====
-- src/config/blacklist-store.ts: a write goes to every configured backend, a read asks TCP first.
use mothercare_backend.Prelude.{
  ℕ, ◌+◌, Bool, false, not, ◌&&◌, ◌||◌, Option, none, some, List, [], ◌∷◌, ◌==◌, ltb, if◌then◌else◌,
  length,
}

-- `BackendKind`
pub data BackendKind : Type 0 where
  tcp rest : BackendKind

-- One Redis server: whether the environment configures it, and when the key of each token expires.
pub record Backend : Type 0 where
  pub configured : Bool
  pub expiries : ℕ → Option ℕ

pub record Stores : Type 0 where
  pub tcp_store : Backend
  pub rest_store : Backend

-- Which servers have a client that answers during one call; the others throw or have no client.
pub record Network : Type 0 where
  pub tcp_answers : Bool
  pub rest_answers : Bool

-- `isBlacklistConfigured`
abbrev pub is_blacklist_configured : Stores → Bool
is_blacklist_configured s = s.tcp_store.configured || s.rest_store.configured

-- The key of a token is there until it expires.
abbrev pub holds : Backend → ℕ → ℕ → Bool
holds b now token = elim (b.expiries token) [ none ↦ false | some expiry ↦ ltb now expiry ]

-- `client.get(key)` of a configured server, `none` if it does not answer.
abbrev pub ask : Backend → Bool → ℕ → ℕ → Option Bool
ask b answers now token = if b.configured && answers then some (holds b now token) else none

-- `checkBlacklisted`
unfoldable pub check_blacklisted : Network → ℕ → ℕ → Stores → Bool
check_blacklisted net now token s = elim (ask s.tcp_store net.tcp_answers now token) [
  | some value ↦ value
  | none ↦ elim (ask s.rest_store net.rest_answers now token) [
    | some value ↦ value
    | none ↦ is_blacklist_configured s
  ]
]

-- `client.set(key, '1', 'EX', ttlSeconds)`
abbrev pub set_key : ℕ → ℕ → Backend → Backend
set_key token expiry b = record b {
  expiries = λ t. if t == token then some expiry else b.expiries t;
}

abbrev pub mirror : Bool → ℕ → ℕ → Backend → Backend
mirror answers token expiry b = if b.configured && answers then set_key token expiry b else b

abbrev pub failure_of : BackendKind → Bool → Backend → List BackendKind → List BackendKind
failure_of kind answers b rest_of = if b.configured && not answers then kind ∷ rest_of else rest_of

abbrev pub attempts : Stores → ℕ
attempts s = (if s.tcp_store.configured then 1 else 0) + (if s.rest_store.configured then 1 else 0)

abbrev pub failures : Network → Stores → List BackendKind
failures net s =
    failure_of tcp net.tcp_answers s.tcp_store (failure_of rest net.rest_answers s.rest_store [])

-- `putBlacklist`: whether it returns rather than throws, and the stores after it.
unfoldable pub put_blacklist : Network → ℕ → ℕ → ℕ → Stores → Bool × Stores
put_blacklist net now token ttl s =
    let failed = length (failures net s) in
    (
      not (not (failed == 0) && failed == attempts s),
      record {
        tcp_store = mirror net.tcp_answers token (now + ttl) s.tcp_store;
        rest_store = mirror net.rest_answers token (now + ttl) s.rest_store;
      },
    )
