-- ===== src/Checkout/Single.antt =====
-- One checkout of a user at a time (src/app/domains/billing/checkout_guard.py and service.py).
use signalsync_be.Base.{
  ℕ, ◌+◌, ◌<◌, ◌≡◌, refl, inl, inr, true, false, Option, none, some, ltb, if◌then◌else◌, Bool-cases,
  Option-cases, arith,
}
use signalsync_be.Base.Python.{returned}
use signalsync_be.Base.Text.{Text, text_eq, text_eq_iff}
use signalsync_be.Billing.Payload.{Value, null, text, whole, other}
use signalsync_be.Webhooks.{Database}
use signalsync_be.Checkout.{
  GuardEntry, GuardKey, creating, is_url, live, acquire, CheckoutState, Reachable, Provider, Result,
  checkout, created, go_on, open_checkout,
}

creating-differs : (url : Text) → is_url url ≡ true → text_eq url creating ≡ false
creating-differs url h = elim (Bool-cases (text_eq url creating)) [
  | inl e ↦ absurd (cc (rw ((text_eq_iff url creating).0 e) at h))
  | inr e ↦ e
]

abbrev state_of : GuardEntry → Database → CheckoutState
state_of entry db = record { key = some entry; db = db }

-- The URL in the key is what a request gets until the key expires.
held_url :
    (entry : GuardEntry) (db : Database) (now : ℕ) (reachable : Reachable) (provider : Provider)
    → is_url entry.value ≡ true
    → reachable.at_acquire ≡ true
    → now < entry.expires_at
    → open_checkout now reachable provider (state_of entry db)
      ≡ (returned (checkout entry.value), state_of entry db)
unfolding open_checkout acquire live
held_url entry db now reachable provider is_address reached early =
    rw (before, is_address, reached, creating-differs entry.value is_address) refl
  where
    before : ltb now entry.expires_at ≡ true
    before = ground (arith, early)

held_at :
    (entry : GuardEntry) (key : GuardKey) (db : Database) (now : ℕ) (reachable : Reachable)
    (provider : Provider)
    → key ≡ some entry
    → is_url entry.value ≡ true
    → reachable.at_acquire ≡ true
    → now < entry.expires_at
    → open_checkout now reachable provider (record { key = key; db = db })
      ≡ (returned (checkout entry.value), record { key = key; db = db })
held_at entry key db now reachable provider h is_address reached early =
    rw h (held_url entry db now reachable provider is_address reached early)

-- What a start of a checkout that returns a URL leaves.
abbrev IsHeld : ℕ → Text → CheckoutState → Type 0
IsHeld now url after =
    (entry : GuardEntry) × (after.key ≡ some entry)
    × (entry.value ≡ url)
    × (is_url url ≡ true)
    × (now < entry.expires_at)

kept_url :
    (now : ℕ) (entry : GuardEntry) (state after : CheckoutState) (url : Text)
    → state.key ≡ some entry
    → is_url entry.value ≡ true
    → now < entry.expires_at
    → ◌≡◌ {A = Result} (returned (checkout entry.value), state) (returned (checkout url), after)
    → IsHeld now url after
kept_url now entry state after url key is_address early same =
    (entry, rw (← state_eq) key, value_eq, rw (← value_eq) is_address, early)
  where
    state_eq : state ≡ after
    state_eq = cc

    value_eq : entry.value ≡ url
    value_eq = cc

created-IsHeld :
    (now : ℕ) (reachable : Reachable) (answer : Option Value) (state after : CheckoutState)
    (url : Text)
    → created now reachable answer state ≡ (returned (checkout url), after)
    → IsHeld now url after
created-IsHeld now reachable none state after url h = absurd (cc h)
created-IsHeld now reachable (some null) state after url h = absurd (cc h)
created-IsHeld now reachable (some (whole n)) state after url h = absurd (cc h)
created-IsHeld now reachable (some (other truth n)) state after url h = absurd (cc h)
created-IsHeld now reachable (some (text t)) state after url h = elim (Bool-cases (is_url t)) [
  | inr e ↦ absurd (cc (rw e at h))
  | inl e ↦ elim (Bool-cases reachable.at_store) [
    | inr r ↦ absurd (cc (rw (e, r) at h))
    | inl r ↦
        kept_url now (record { value = t; expires_at = now + 3600 }) _ after url refl e
          (omega arith) (rw (e, r) at h)
  ]
]

go_on-IsHeld :
    (now : ℕ) (reachable : Reachable) (provider : Provider) (entry : GuardEntry)
    (state after : CheckoutState) (url : Text)
    → now < entry.expires_at
    → state.key ≡ some entry
    → go_on now reachable provider
        (some (if is_url entry.value then entry.value else creating))
        state
      ≡ (returned (checkout url), after)
    → IsHeld now url after
go_on-IsHeld now reachable provider entry state after url early key h =
    elim (Bool-cases (is_url entry.value)) [
      | inr e ↦ absurd (cc (rw e at h))
      | inl e ↦
          kept_url now entry state after url key e early
            (rw (e, creating-differs entry.value e) at h)
    ]

open_checkout-IsHeld :
    (now : ℕ) (reachable : Reachable) (provider : Provider) (state after : CheckoutState)
    (url : Text)
    → open_checkout now reachable provider state ≡ (returned (checkout url), after)
    → IsHeld now url after
unfolding open_checkout acquire live
open_checkout-IsHeld now reachable provider state after url h =
    elim (Bool-cases reachable.at_acquire) [
      | inr e ↦ absurd (cc (rw e at h))
      | inl e ↦ elim (Option-cases state.key) [
        | inl k ↦ created-IsHeld now reachable provider.checkout_url _ after url (rw (e, k) at h)
        | inr (entry, k) ↦ elim (Bool-cases (ltb now entry.expires_at)) [
          | inr l ↦
              created-IsHeld now reachable provider.checkout_url _ after url (rw (e, k, l) at h)
          | inl l ↦
              go_on-IsHeld now reachable provider entry _ after url (ground (arith, l)) refl
                (rw (e, k, l) at h)
        ]
      ]
    ]

live_before :
    (key : GuardKey) (entry : GuardEntry) (now : ℕ)
    → key ≡ some entry
    → now < entry.expires_at
    → live now key ≡ some entry
unfolding live
live_before key entry now h early = rw h (rw before refl)
  where
    before : ltb now entry.expires_at ≡ true
    before = ground (arith, early)

live_held :
    (key : GuardKey) (entry shown : GuardEntry) (now : ℕ)
    → key ≡ some entry
    → live now key ≡ some shown
    → now < entry.expires_at
unfolding live
live_held key entry shown now h l = elim (Bool-cases (ltb now entry.expires_at)) [
  | inl e ↦ ground (arith, e)
  | inr e ↦ absurd (cc (rw (h, e) at l))
]

-- A user who was sent to a checkout is sent to the same one while the guard's key is there: the key
-- is there at the time of the request, and at any later time at which it still is, a request that
-- reaches the guard gets that URL and changes nothing, whatever the provider would answer.
pub open_checkout-single :
    (now later : ℕ) (reachable again : Reachable) (provider other_answers : Provider)
    (state after : CheckoutState) (url : Text) (shown : GuardEntry)
    → open_checkout now reachable provider state ≡ (returned (checkout url), after)
    → again.at_acquire ≡ true
    → live later after.key ≡ some shown
    → ((held : GuardEntry) × (live now after.key ≡ some held))
      × (open_checkout later again other_answers after ≡ (returned (checkout url), after))
open_checkout-single now later reachable again provider other_answers state after url shown h
      reached there =
    let (entry, key, value, is_address, early) =
      open_checkout-IsHeld now reachable provider state after url h in
    (
      (entry, live_before after.key entry now key early),
      rw (← value) (
          held_at entry after.key after.db later again other_answers key (rw value is_address)
            reached (live_held after.key entry shown later key there)),
    )
