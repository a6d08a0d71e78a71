-- ===== src/Health/Workers.antt =====
-- When all workers are up (`aggregate_health` of src/app/domains/copy_trading/health.py).
use signalsync_be.Base.{
  ℕ, ◌≡◌, ◌≢◌, ◌⊎◌, refl, inl, inr, true, false, ◌&&◌, none, some, Option, List, [], ◌∷◌, ◌++◌,
  IsIn, All, any, is_empty, arith, Bool-cases, Option-cases,
}
use signalsync_be.Base.Int.{ℤ, pos, ◌-ℤ◌, ◌≤ℤ◌, ◌<ℤ◌, ltb_ℤ}
use signalsync_be.Health.{
  WorkerRole, WorkerHealthState, Heartbeat, reported, is_missing, Issue, healthy, degraded, failed,
  same_role, replace, latest, is_stale, status_of, role_issues, issues_for, aggregate_health,
  required_worker_roles, is_fine,
}

-- A heartbeat of the role such that no other of the role is later.
abbrev pub IsLatest : WorkerRole → Heartbeat → List Heartbeat → Type 0
IsLatest role h hs =
    IsIn h hs
    × (same_role h.worker_role role ≡ true)
    × ((g : Heartbeat)
        → IsIn g hs
        → same_role g.worker_role role ≡ true
        → g.heartbeat_at ≤ℤ h.heartbeat_at)

-- The latest heartbeat of the role says healthy and is not too old.
abbrev pub IsUp : ℤ → ℕ → List Heartbeat → WorkerRole → Type 0
IsUp now stale_after hs role =
    (h : Heartbeat) × IsLatest role h hs
    × (h.state ≡ healthy)
    × ((now -ℤ h.heartbeat_at) ≤ℤ pos stale_after)

-- What replacing keeps: the later of the two.
replace-lem :
    (current : Option Heartbeat) (x : Heartbeat)
    → (k : Heartbeat) × (replace current x ≡ some k)
      × ((k ≡ x) ⊎ (current ≡ some k))
      × (x.heartbeat_at ≤ℤ k.heartbeat_at)
      × ((g : Heartbeat) → current ≡ some g → g.heartbeat_at ≤ℤ k.heartbeat_at)
unfolding replace
replace-lem none x = (x, refl, inl refl, omega arith, λ g c. cc)
replace-lem (some c) x = elim (Bool-cases (ltb_ℤ c.heartbeat_at x.heartbeat_at)) [
  | inl e ↦ (x, rw e refl, inl refl, omega arith, λ g same. earlier x g same (ground arith))
  | inr e ↦ (c, rw e refl, inr refl, ground arith, λ g same. earlier c g same (omega arith))
]
  where
    earlier :
        (k g : Heartbeat)
        → some c ≡ some g
        → c.heartbeat_at ≤ℤ k.heartbeat_at
        → g.heartbeat_at ≤ℤ k.heartbeat_at
    earlier k g same le = let p : g ≡ c = cc in rw p le

-- What the loop keeps for a role: the latest heartbeat among those seen.
latest-some :
    (role : WorkerRole) (current : Option Heartbeat) (hs : List Heartbeat) (h : Heartbeat)
    → latest role current hs ≡ some h
    → ((current ≡ some h) ⊎ (IsIn h hs × (same_role h.worker_role role ≡ true)))
      × ((g : Heartbeat)
          → IsIn g hs
          → same_role g.worker_role role ≡ true
          → g.heartbeat_at ≤ℤ h.heartbeat_at)
      × ((g : Heartbeat) → current ≡ some g → g.heartbeat_at ≤ℤ h.heartbeat_at)
unfolding latest
latest-some role current [] h e =
    (inl e, (λ g m. elim m [ ]), (λ g c. let p : g ≡ h = cc in rw p (omega arith)))
latest-some role current (x ∷ hs) h e = elim (Bool-cases (same_role x.worker_role role)) [
  | inr other ↦
      let (from, all, kept) = latest-some role current hs h (rw other at e) in
      (
        elim from [ inl c ↦ inl c | inr (m, s) ↦ inr (inr m, s) ],
        (λ g m s. elim m [ inl p ↦ cc (rw p at s) | inr q ↦ all g q s ]),
        kept,
      )
  | inl same ↦
      let (from, all, kept) = latest-some role (replace current x) hs h (rw same at e) in
      let (k, r, origin, later, keeps) = replace-lem current x in
      let k≤h = kept k r in
      (
        elim from [
          | inr (m, s) ↦ inr (inr m, s)
          | inl c ↦
              let p : k ≡ h = cc in
              elim origin [
                | inl q ↦ inr (inl (rw⁻¹ p q), rw⁻¹ p (rw q same))
                | inr q ↦ inl (rw⁻¹ p q)
              ]
        ],
        (λ g m s. elim m [ inl p ↦ rw p (omega (arith, later, k≤h)) | inr q ↦ all g q s ]),
        (λ g c. omega (arith, keeps g c, k≤h)),
      )
]

latest-none :
    (role : WorkerRole) (current : Option Heartbeat) (hs : List Heartbeat)
    → latest role current hs ≡ none
    → (current ≡ none) × ((g : Heartbeat) → IsIn g hs → same_role g.worker_role role ≡ false)
unfolding latest
latest-none role current [] e = (e, λ g m. elim m [ ])
latest-none role current (x ∷ hs) e = elim (Bool-cases (same_role x.worker_role role)) [
  | inr other ↦
      let (c, all) = latest-none role current hs (rw other at e) in
      (c, λ g m. elim m [ inl p ↦ rw p other | inr q ↦ all g q ])
  | inl same ↦
      let (c, all) = latest-none role (replace current x) hs (rw same at e) in
      let (k, r, origin, later, keeps) = replace-lem current x in cc
]

fine_reported : (state : WorkerHealthState) → is_fine (reported state) ≡ true → state ≡ healthy
fine_reported healthy h = refl
fine_reported degraded h = cc
fine_reported failed h = cc

is_empty-append : (xs ys : List Issue) → is_empty (xs ++ ys) ≡ (is_empty xs && is_empty ys)
is_empty-append [] ys = refl
is_empty-append (x ∷ xs) ys = refl

module _ (now : ℤ) (stale_after : ℕ) where
  fine-up :
      (h : Heartbeat)
      → is_fine (status_of now stale_after h) ≡ true
      → (h.state ≡ healthy) × ((now -ℤ h.heartbeat_at) ≤ℤ pos stale_after)
  fine-up h fine = elim (Bool-cases (is_stale now stale_after h)) [
    | inl e ↦ cc (rw e at fine)
    | inr e ↦ (fine_reported h.state (rw e at fine), ground arith)
  ]

  not_fine-down :
      (h : Heartbeat)
      → is_fine (status_of now stale_after h) ≡ false
      → (h.state ≢ healthy) ⊎ (pos stale_after <ℤ (now -ℤ h.heartbeat_at))
  not_fine-down h bad = elim (Bool-cases (is_stale now stale_after h)) [
    | inl e ↦ inr (ground arith)
    | inr e ↦ inl (λ same. cc (rw (e, same) at bad))
  ]

  module _ (heartbeats : List Heartbeat) where
    -- No heartbeat of the role, or a latest one that is not healthy or is too old.
    abbrev pub IsDown : WorkerRole → Type 0
    IsDown role =
        ((g : Heartbeat) → IsIn g heartbeats → same_role g.worker_role role ≡ false)
        ⊎ ((h : Heartbeat) × IsLatest role h heartbeats
            × ((h.state ≢ healthy) ⊎ (pos stale_after <ℤ (now -ℤ h.heartbeat_at))))

    latest-IsLatest :
        (role : WorkerRole) (h : Heartbeat)
        → latest role none heartbeats ≡ some h
        → IsLatest role h heartbeats
    latest-IsLatest role h e =
        let (from, all, kept) = latest-some role none heartbeats h e in
        elim from [ inl c ↦ cc | inr (m, s) ↦ (m, s, all) ]

    role_issues-IsUp :
        (role : WorkerRole)
        → is_empty (role_issues now stale_after role (latest role none heartbeats)) ≡ true
        → IsUp now stale_after heartbeats role
    unfolding role_issues
    role_issues-IsUp role clear = elim (Option-cases (latest role none heartbeats)) [
      | inl e ↦ cc (rw (e, role_issues) at clear)
      | inr (h, e) ↦
          let (state, fresh) = fine-up h (ground (arith, rw (e, role_issues) at clear)) in
          (h, latest-IsLatest role h e, state, fresh)
    ]

    role_issues-IsDown :
        (role : WorkerRole)
        → is_empty (role_issues now stale_after role (latest role none heartbeats)) ≡ false
        → IsDown role
    unfolding role_issues
    role_issues-IsDown role some_issue = elim (Option-cases (latest role none heartbeats)) [
      | inl e ↦ inl (latest-none role none heartbeats e).1
      | inr (h, e) ↦ inr (
        h,
        latest-IsLatest role h e,
        not_fine-down h (ground (arith, rw (e, role_issues) at some_issue)),
      )
    ]

    -- The issues of a role, and those of the other roles.
    split :
        (role : WorkerRole) (roles : List WorkerRole)
        → is_empty (issues_for now stale_after heartbeats (role ∷ roles)) ≡ (
            is_empty (role_issues now stale_after role (latest role none heartbeats))
            && is_empty (issues_for now stale_after heartbeats roles))
    unfolding issues_for
    split role roles =
        is_empty-append (role_issues now stale_after role (latest role none heartbeats))
          (issues_for now stale_after heartbeats roles)

    issues_for-IsUp :
        (roles : List WorkerRole)
        → is_empty (issues_for now stale_after heartbeats roles) ≡ true
        → All (IsUp now stale_after heartbeats) roles
    issues_for-IsUp [] clear = tt
    issues_for-IsUp (role ∷ roles) clear = (
      role_issues-IsUp role (ground (arith, split role roles)),
      issues_for-IsUp roles (ground (arith, split role roles)),
    )

    issues_for-IsDown :
        (roles : List WorkerRole)
        → is_empty (issues_for now stale_after heartbeats roles) ≡ false
        → (role : WorkerRole) × IsIn role roles × IsDown role
    unfolding issues_for
    issues_for-IsDown [] e = cc
    issues_for-IsDown (role ∷ roles) e =
        elim (Bool-cases
          (is_empty (role_issues now stale_after role (latest role none heartbeats)))) [
            | inr first ↦ (role, inl refl, role_issues-IsDown role first)
            | inl clear ↦
                let (r, m, d) = issues_for-IsDown roles (ground (arith, split role roles)) in
                (r, inr m, d)
          ]

    missing-issues :
        (roles : List WorkerRole)
        → any (λ role. is_missing (latest role none heartbeats)) roles ≡ true
        → is_empty (issues_for now stale_after heartbeats roles) ≡ false
    unfolding issues_for role_issues
    missing-issues [] h = cc
    missing-issues (role ∷ roles) h = elim (Option-cases (latest role none heartbeats)) [
      | inl e ↦ rw e refl
      | inr (beat, e) ↦ ground (arith, split role roles, missing-issues roles (rw e at h))
    ]

    -- If the summary is ready, then each required role has a latest heartbeat that says healthy and
    -- is not older than the limit; if it is not, then some required role has no heartbeat, or a
    -- latest one that does not say healthy or is too old.
    pub aggregate_health-ready :
        ((aggregate_health now stale_after heartbeats).ready ≡ true
          → All (IsUp now stale_after heartbeats) required_worker_roles)
        × ((aggregate_health now stale_after heartbeats).ready ≡ false
            → (role : WorkerRole) × IsIn role required_worker_roles × IsDown role)
    unfolding aggregate_health
    aggregate_health-ready = (
      (λ ready.
          issues_for-IsUp required_worker_roles
            (ground (arith, missing-issues required_worker_roles))),
      (λ unready.
          issues_for-IsDown required_worker_roles
            (ground (arith, missing-issues required_worker_roles))),
    )
