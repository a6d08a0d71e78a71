-- ===== src/Health.antt =====
-- The health of the workers: src/app/domains/copy_trading/health.py, less `record_worker_health`,
-- which only writes a row. Times and ages are integers of seconds; the texts of the messages are
-- left out of the components.
pub mod Ready
pub mod Workers
mod Examples
use signalsync_be.Base.{
  ℕ, zero, ◌+◌, max, Bool, true, false, not, ◌&&◌, ◌||◌, Option, none, some, List, [], ◌∷◌, ◌++◌,
  ltb, ◌==◌, if◌then◌else◌, is_empty, any, select,
}
use signalsync_be.Base.Int.{ℤ, pos, ◌-ℤ◌, ltb_ℤ}

pub data WorkerRole : Type 0 where
  telegram_session copy_signal copy_execution copy_provisioning other_role : WorkerRole

pub data WorkerHealthState : Type 0 where
  healthy degraded failed : WorkerHealthState

pub record Heartbeat : Type 0 where
  pub worker_role : WorkerRole
  pub heartbeat_at : ℤ
  pub state : WorkerHealthState
  pub stream_lag : ℕ
  pub pending_count : ℕ

pub data ComponentRole : Type 0 where
  worker : WorkerRole → ComponentRole
  metaapi telegram_connection : ComponentRole

pub data ComponentStatus : Type 0 where
  reported : WorkerHealthState → ComponentStatus
  is_healthy stale missing is_disabled not_configured reconnecting : ComponentStatus
  reauthentication_required : ComponentStatus

pub record Component : Type 0 where
  pub role : ComponentRole
  pub status : ComponentStatus
  pub heartbeat_at : Option ℤ
  pub stream_lag : ℕ
  pub pending_count : ℕ

pub data Issue : Type 0 where
  not_reported : WorkerRole → Issue
  bad_status : WorkerRole → ComponentStatus → Issue
  metaapi_not_configured telegram_reconnecting telegram_authorization : Issue

pub data Status : Type 0 where
  action_required is_degraded is_ready : Status

pub record HealthSummary : Type 0 where
  pub status : Status
  pub ready : Bool
  pub components : List Component
  pub issues : List Issue

-- `REQUIRED_WORKER_ROLES`
abbrev pub required_worker_roles : List WorkerRole
required_worker_roles = telegram_session ∷ copy_signal ∷ copy_execution ∷ copy_provisioning ∷ []

abbrev pub same_role : WorkerRole → WorkerRole → Bool
same_role telegram_session telegram_session = true
same_role copy_signal copy_signal = true
same_role copy_execution copy_execution = true
same_role copy_provisioning copy_provisioning = true
same_role other_role other_role = true
same_role _ _ = false

-- The entry of the dict `latest` for one role, as the loop over the heartbeats leaves it.
pub replace : Option Heartbeat → Heartbeat → Option Heartbeat
replace none heartbeat = some heartbeat
replace (some current) heartbeat =
    if ltb_ℤ current.heartbeat_at heartbeat.heartbeat_at then some heartbeat else some current

pub latest : WorkerRole → Option Heartbeat → List Heartbeat → Option Heartbeat
unfolding replace
latest role current [] = current
latest role current (h ∷ hs) =
    latest role (if same_role h.worker_role role then replace current h else current) hs

-- `age > stale_after_seconds`, where `age` is at least 0
abbrev pub is_stale : ℤ → ℕ → Heartbeat → Bool
is_stale now stale_after h =
    let age = now -ℤ h.heartbeat_at in
    ltb_ℤ (pos stale_after) (if ltb_ℤ age (pos 0) then pos 0 else age)

abbrev pub status_of : ℤ → ℕ → Heartbeat → ComponentStatus
status_of now stale_after h = if is_stale now stale_after h then stale else reported h.state

abbrev pub is_fine : ComponentStatus → Bool
is_fine (reported healthy) = true
is_fine _ = false

-- What the loop over the roles adds for one role.
pub role_component : ℤ → ℕ → WorkerRole → Option Heartbeat → Component
role_component now stale_after role none = record {
  role = worker role;
  status = missing;
  heartbeat_at = none;
  stream_lag = 0;
  pending_count = 0;
}
role_component now stale_after role (some h) = record {
  role = worker role;
  status = status_of now stale_after h;
  heartbeat_at = some h.heartbeat_at;
  stream_lag = h.stream_lag;
  pending_count = h.pending_count;
}

pub role_issues : ℤ → ℕ → WorkerRole → Option Heartbeat → List Issue
role_issues now stale_after role none = not_reported role ∷ []
role_issues now stale_after role (some h) =
    let status = status_of now stale_after h in
    if is_fine status then [] else bad_status role status ∷ []

abbrev pub is_missing : Option Heartbeat → Bool
is_missing none = true
is_missing (some _) = false

module _ (now : ℤ) (stale_after : ℕ) (heartbeats : List Heartbeat) where
  pub components_for : List WorkerRole → List Component
  unfolding role_component
  components_for [] = []
  components_for (role ∷ roles) =
      role_component now stale_after role (latest role none heartbeats) ∷ components_for roles

  pub issues_for : List WorkerRole → List Issue
  issues_for [] = []
  issues_for (role ∷ roles) =
      role_issues now stale_after role (latest role none heartbeats) ++ issues_for roles

  abbrev summary_status : Bool → List Issue → Status
  summary_status unreported issues =
      if unreported then action_required else if is_empty issues then is_ready else is_degraded

  abbrev is_status_ready : Status → Bool
  is_status_ready is_ready = true
  is_status_ready _ = false

  pub aggregate_health : HealthSummary
  aggregate_health =
      let unreported =
        any (λ role. is_missing (latest role none heartbeats)) required_worker_roles in
      let issues = issues_for required_worker_roles in
      let status = summary_status unreported issues in
      record {
        status = status;
        ready = is_status_ready status;
        components = components_for required_worker_roles;
        issues = issues;
      }

abbrev simple_component : ComponentRole → ComponentStatus → Component
simple_component role status = record {
  role = role;
  status = status;
  heartbeat_at = none;
  stream_lag = 0;
  pending_count = 0;
}

abbrev with_component : HealthSummary → Component → HealthSummary
with_component health c = record health { components = health.components ++ c ∷ [] }

abbrev with_issue : HealthSummary → Status → Component → Issue → HealthSummary
with_issue health status c issue = record {
  status = status;
  ready = false;
  components = health.components ++ c ∷ [];
  issues = health.issues ++ issue ∷ [];
}

pub add_metaapi_health : HealthSummary → Bool → Bool → Bool → HealthSummary
add_metaapi_health health copy_trading_enabled metaapi_enabled token_configured =
    let configured = metaapi_enabled && token_configured in
    let status =
      if configured then is_healthy else if copy_trading_enabled then missing else is_disabled in
    let c = simple_component metaapi status in
    if not copy_trading_enabled || configured
    then with_component health c
    else with_issue health action_required c metaapi_not_configured

-- The states of a Telegram connection that the code tells apart.
pub data TelegramState : Type 0 where
  needs_authorization disconnected other_connection : TelegramState

abbrev pub wants_authorization : TelegramState → Bool
wants_authorization needs_authorization = true
wants_authorization _ = false

abbrev pub is_disconnected : TelegramState → Bool
is_disconnected disconnected = true
is_disconnected _ = false

pub add_telegram_connection_health : HealthSummary → List TelegramState → HealthSummary
add_telegram_connection_health health [] =
    with_component health (simple_component telegram_connection not_configured)
add_telegram_connection_health health (s ∷ ss) =
    let authorization_required = any wants_authorization (s ∷ ss) in
    let down = any is_disconnected (s ∷ ss) in
    if not authorization_required && not down
    then with_component health (simple_component telegram_connection is_healthy)
    else if down && not authorization_required
    then with_issue health is_degraded (simple_component telegram_connection reconnecting)
        telegram_reconnecting
    else with_issue health action_required
        (simple_component telegram_connection reauthentication_required) telegram_authorization

pub data Blocker : Type 0 where
  runtime_health uncertain_intents active_intents : Blocker

pub data Warning : Type 0 where
  broker_confirmation_pending dead_letters_need_review broker_action_pending : Warning
  global_pause_enabled : Warning

pub record LaunchReadiness : Type 0 where
  pub ready : Bool
  pub blockers : List Blocker
  pub warnings : List Warning
  pub components : List Component
  pub stream_lag : ℕ
  pub pending_events : ℕ
  pub dead_letters : ℕ
  pub oldest_uncertain_seconds : ℕ
  pub oldest_active_intent_seconds : ℕ
  pub global_paused : Bool

-- `max(ages or [0])`
pub oldest : List ℕ → ℕ
oldest [] = 0
oldest (age ∷ ages) = max age (oldest ages)

abbrev pub total : (Component → ℕ) → List Component → ℕ
total field [] = 0
total field (c ∷ cs) = field c + total field cs

abbrev listed : {A : Type 0} → Bool → A → List A
listed true a = a ∷ []
listed false a = []

-- The facts about the intents and the events, and the limits on their ages.
pub record LaunchFacts : Type 0 where
  pub dead_letter_count : ℕ
  pub uncertain_intent_ages : List ℕ
  pub active_intent_ages : List ℕ
  pub active_intent_max_age : ℕ
  pub uncertain_max_age : ℕ
  pub global_paused : Bool

pub build_launch_readiness : HealthSummary → LaunchFacts → LaunchReadiness
build_launch_readiness health facts =
    let oldest_uncertain = oldest facts.uncertain_intent_ages in
    let oldest_active = oldest facts.active_intent_ages in
    let late_uncertain = ltb facts.uncertain_max_age oldest_uncertain in
    let late_active = ltb facts.active_intent_max_age oldest_active in
    let blockers =
      listed (not health.ready) runtime_health
      ++ (listed late_uncertain uncertain_intents ++ listed late_active active_intents) in
    record {
      ready = is_empty blockers;
      blockers = blockers;
      warnings =
          listed (not late_uncertain && not (is_empty facts.uncertain_intent_ages))
            broker_confirmation_pending
          ++ (listed (not (facts.dead_letter_count == 0)) dead_letters_need_review
              ++ (listed (not late_active && not (is_empty facts.active_intent_ages))
                    broker_action_pending
                  ++ listed facts.global_paused global_pause_enabled));
      components = health.components;
      stream_lag = total (λ c. c.stream_lag) health.components;
      pending_events = total (λ c. c.pending_count) health.components;
      dead_letters = facts.dead_letter_count;
      oldest_uncertain_seconds = oldest_uncertain;
      oldest_active_intent_seconds = oldest_active;
      global_paused = facts.global_paused;
    }
