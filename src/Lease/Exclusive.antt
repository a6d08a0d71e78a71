-- ===== src/Lease/Exclusive.antt =====
-- One runtime owns the Telegram connections at a time
-- (src/app/domains/copy_trading/worker_runtime.py).
use signalsync_be.Base.{
  ℕ, ◌+◌, ◌≤◌, ◌<◌, ◌≡◌, ◌≢◌, refl, true, false, some, List, [], ◌∷◌, All, arith,
}
use signalsync_be.Lease.{Held, Request, claims, renews, frees, token_of, time_of, serve, serve_all}

-- A request of another runtime before the expiry of the lease.
abbrev pub IsRival : Held → Request → Type 0
IsRival held request = (token_of request ≢ held.token) × (time_of request < held.expires_at)

-- Of a rival, only freeing is answered as done, since the release script answers nothing else; it
-- takes neither the key nor its expiry.
serve-rival :
    (held : Held) (request : Request)
    → IsRival held request
    → (serve request (some held)).1 ≡ some held
unfolding serve
serve-rival held (claims token now) h = ground arith
serve-rival held (renews token now) h = ground arith
serve-rival held (frees token now) h = ground arith

-- Until its expiry a lease is exclusive: whatever other runtimes claim, renew or free before then,
-- the key still holds the same token with the same expiry, and another claim or renewal is refused.
pub serve_all-exclusive :
    (held : Held) (rivals : List Request) (token now : ℕ)
    → All (λ request. IsRival held request) rivals
    → token ≢ held.token
    → now < held.expires_at
    → (serve_all rivals (some held) ≡ some held)
      × ((serve (claims token now) (serve_all rivals (some held))).0 ≡ false)
      × ((serve (renews token now) (serve_all rivals (some held))).0 ≡ false)
unfolding serve_all serve
serve_all-exclusive held [] token now h ne early = (refl, ground arith, ground arith)
serve_all-exclusive held (r ∷ rivals) token now h ne early =
    rw (serve-rival held r h.0) (serve_all-exclusive held rivals token now h.1 ne early)

-- Once another runtime has claimed the key after the expiry of a lease, the former owner's renewal
-- is refused and its release leaves the new owner's key in place, until that lease expires.
pub takeover-fences :
    (old : Held) (token claimed now : ℕ)
    → token ≢ old.token
    → old.expires_at ≤ claimed
    → claimed ≤ now
    → now < claimed + 30
    → let (granted, key) = serve (claims token claimed) (some old) in
      (granted ≡ true)
      × ((serve (renews old.token now) key).0 ≡ false)
      × ((serve (frees old.token now) key).1 ≡ key)
unfolding serve
takeover-fences old token claimed now ne expired later within =
    (ground arith, ground arith, ground arith)
