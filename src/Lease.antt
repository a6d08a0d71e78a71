-- ===== src/Lease.antt =====
-- The ownership lease of the Telegram runtime: `_try_claim_runtime_ownership`,
-- `_refresh_runtime_ownership` and `_release_runtime_ownership` of
-- src/app/domains/copy_trading/worker_runtime.py, over one Redis key with an expiry.
-- A key is there before its expiry; times are seconds of the Redis clock. Tokens are fresh UUIDs, so
-- two runtimes never share one.
pub mod Exclusive
mod Examples
use signalsync_be.Base.{
  ℕ, ◌+◌, Bool, true, false, Option, none, some, List, [], ◌∷◌, ltb, ◌==◌, if◌then◌else◌,
}

pub record Held : Type 0 where
  pub token : ℕ
  pub expires_at : ℕ

abbrev pub Key : Type 0
Key = Option Held

abbrev pub runtime_ownership_ttl_seconds : ℕ
runtime_ownership_ttl_seconds = 30

abbrev pub runtime_ownership_refresh_seconds : ℕ
runtime_ownership_refresh_seconds = 5

-- The key as Redis shows it at a time: an expired key is gone.
pub live : ℕ → Key → Key
live now none = none
live now (some held) = if ltb now held.expires_at then some held else none

abbrev hold : ℕ → ℕ → Key
hold token now = some (record { token = token; expires_at = now + runtime_ownership_ttl_seconds })

-- `SET key token NX EX ttl`, on the key as it is shown
pub claim_live : ℕ → ℕ → Key → Bool × Key
claim_live token now none = (true, hold token now)
claim_live token now (some held) = (false, some held)

pub try_claim : ℕ → ℕ → Key → Bool × Key
unfolding claim_live live
try_claim token now key = claim_live token now (live now key)

-- the script that renews the expiry if the key holds the token
pub refresh_live : ℕ → ℕ → Key → Bool × Key
refresh_live token now none = (false, none)
refresh_live token now (some held) =
    if held.token == token then (true, hold token now) else (false, some held)

pub refresh : ℕ → ℕ → Key → Bool × Key
unfolding refresh_live live
refresh token now key = refresh_live token now (live now key)

-- the script that deletes the key if it holds the token
pub release_live : ℕ → Key → Key
release_live token none = none
release_live token (some held) = if held.token == token then none else some held

pub release : ℕ → ℕ → Key → Key
unfolding release_live live
release token now key = release_live token (live now key)

-- What a runtime asks of the key, at a time.
pub data Request : Type 0 where
  claims renews frees : ℕ → ℕ → Request

abbrev pub token_of : Request → ℕ
token_of (claims token now) = token
token_of (renews token now) = token
token_of (frees token now) = token

abbrev pub time_of : Request → ℕ
time_of (claims token now) = now
time_of (renews token now) = now
time_of (frees token now) = now

-- The answer, true for a request that was granted.
pub serve : Request → Key → Bool × Key
unfolding try_claim refresh release
serve (claims token now) key = try_claim token now key
serve (renews token now) key = refresh token now key
serve (frees token now) key = (true, release token now key)

pub serve_all : List Request → Key → Key
unfolding serve
serve_all [] key = key
serve_all (request ∷ requests) key = serve_all requests (serve request key).1
