-- ===== src/Lease/Examples.antt =====
-- Examples for the lease (src/app/domains/copy_trading/worker_runtime.py).
use signalsync_be.Base.{◌≡◌, false, some, [], ◌∷◌, List, arith}
use signalsync_be.Lease.{Held, Request, claims, renews, frees, serve, serve_all}
use signalsync_be.Lease.Exclusive.{serve_all-exclusive}

abbrev held_by_one : Held
held_by_one = record { token = 1; expires_at = 130 }

abbrev rivals : List Request
rivals = claims 2 105 ∷ frees 3 110 ∷ renews 2 120 ∷ []

serve_all-exclusive_example :
    (serve_all rivals (some held_by_one) ≡ some held_by_one)
    × ((serve (claims 2 125) (serve_all rivals (some held_by_one))).0 ≡ false)
    × ((serve (renews 2 125) (serve_all rivals (some held_by_one))).0 ≡ false)
serve_all-exclusive_example =
    serve_all-exclusive held_by_one rivals 2 125
      (
        ((λ e. omega arith), omega arith),
        (((λ e. omega arith), omega arith), (((λ e. omega arith), omega arith), tt)),
      )
      (λ e. omega arith) (omega arith)
