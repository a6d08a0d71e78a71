-- ===== src/Health/Ready.antt =====
-- When the platform is ready (src/app/domains/copy_trading/health.py).
use signalsync_be.Base.{ℕ, ◌≡◌, ◌↔◌, refl, ◌≤◌, true, false, Bool, List, [], ◌∷◌, All, any, arith}
use signalsync_be.Health.{
  HealthSummary, add_metaapi_health, TelegramState, wants_authorization, needs_authorization,
  disconnected, other_connection, is_disconnected, add_telegram_connection_health, oldest,
  LaunchFacts, build_launch_readiness,
}

oldest_iff : (ages : List ℕ) (limit : ℕ) → (oldest ages ≤ limit) ↔ All (λ age. age ≤ limit) ages
unfolding oldest
oldest_iff [] limit = ((λ h. tt), (λ h. omega arith))
oldest_iff (age ∷ ages) limit =
    let ih = oldest_iff ages limit in
    ((λ h. (omega (arith, h), ih.0 (omega (arith, h)))), (λ h. omega (arith, h.0, ih.1 h.1)))

-- The platform is ready for launch exactly when the runtime is healthy, no intent is uncertain for
-- longer than its limit and no intent active for longer than its limit; dead letters and the global
-- pause only warn.
pub build_launch_readiness-ready :
    (health : HealthSummary) (facts : LaunchFacts)
    → ((build_launch_readiness health facts).ready ≡ true) ↔ (
        (health.ready ≡ true)
        × All (λ age. age ≤ facts.uncertain_max_age) facts.uncertain_intent_ages
        × All (λ age. age ≤ facts.active_intent_max_age) facts.active_intent_ages)
unfolding build_launch_readiness
build_launch_readiness-ready health facts = (
  (λ h. (
    ground arith,
    (oldest_iff facts.uncertain_intent_ages facts.uncertain_max_age).0 (ground arith),
    (oldest_iff facts.active_intent_ages facts.active_intent_max_age).0 (ground arith),
  )),
  (λ h.
      let (ready, uncertain, active) = h in
      let u = (oldest_iff facts.uncertain_intent_ages facts.uncertain_max_age).1 uncertain in
      let a = (oldest_iff facts.active_intent_ages facts.active_intent_max_age).1 active in
      ground arith),
)

states-fine :
    (states : List TelegramState)
    → ((any wants_authorization states ≡ false) × (any is_disconnected states ≡ false))
      ↔ All (λ state. state ≡ other_connection) states
states-fine [] = ((λ h. tt), (λ h. (refl, refl)))
states-fine (needs_authorization ∷ states) = ((λ h. cc), (λ h. cc))
states-fine (disconnected ∷ states) = ((λ h. cc), (λ h. cc))
states-fine (other_connection ∷ states) =
    let ih = states-fine states in ((λ h. (refl, ih.0 h)), (λ h. ih.1 h.1))

metaapi-ready :
    (health : HealthSummary) (enabled metaapi_enabled token : Bool)
    → ((add_metaapi_health health enabled metaapi_enabled token).ready ≡ true)
      ↔ ((health.ready ≡ true) × ((enabled ≡ true) → (metaapi_enabled ≡ true) × (token ≡ true)))
unfolding add_metaapi_health
metaapi-ready health true true true = ((λ h. (h, λ e. (refl, refl))), (λ h. h.0))
metaapi-ready health true true false = ((λ h. cc), (λ h. cc (h.1 refl).1))
metaapi-ready health true false token = ((λ h. cc), (λ h. cc (h.1 refl).0))
metaapi-ready health false metaapi_enabled token =
    ((λ h. (ground arith, λ e. cc)), (λ h. ground (arith, h.0)))

telegram-ready :
    (health : HealthSummary) (states : List TelegramState)
    → ((add_telegram_connection_health health states).ready ≡ true)
      ↔ ((health.ready ≡ true) × All (λ state. state ≡ other_connection) states)
unfolding add_telegram_connection_health
telegram-ready health [] = ((λ h. (h, tt)), (λ h. h.0))
telegram-ready health (s ∷ ss) =
    let (fine_of, of_fine) = states-fine (s ∷ ss) in
    (
      (λ h. (ground arith, fine_of (ground arith, ground arith))),
      (λ h. let (a, d) = of_fine h.1 in ground (arith, h.0)),
    )

-- The MetaApi and the Telegram checks keep a summary ready exactly when it was ready, MetaApi is
-- configured if copy trading is enabled, and no Telegram connection is disconnected or waits for
-- an authorization; they never make an unready summary ready.
pub add_connections-ready :
    (health : HealthSummary) (enabled metaapi_enabled token : Bool) (states : List TelegramState)
    → ((add_telegram_connection_health
          (add_metaapi_health health enabled metaapi_enabled token)
          states).ready
        ≡ true)
      ↔ ((health.ready ≡ true)
          × ((enabled ≡ true) → (metaapi_enabled ≡ true) × (token ≡ true))
          × All (λ state. state ≡ other_connection) states)
add_connections-ready health enabled metaapi_enabled token states =
    let m = metaapi-ready health enabled metaapi_enabled token in
    let t = telegram-ready (add_metaapi_health health enabled metaapi_enabled token) states in
    (
      (λ h. let (r, fine) = t.0 h in let (ready, configured) = m.0 r in (ready, configured, fine)),
      (λ h. let (ready, configured, fine) = h in t.1 (m.1 (ready, configured), fine)),
    )
