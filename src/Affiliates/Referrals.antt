-- ===== src/Affiliates/Referrals.antt =====
-- Profiles and referrals: `ensure_profile`, `validate_code` and `attribute_new_user` of
-- src/app/domains/affiliates/service.py.
-- The random codes are an argument: `draw n` is the code drawn with n draws left.
pub mod Single
use signalsync_be.Base.{
  ℕ, zero, suc, ◌≤◌, ◌≡◌, ◌≢◌, refl, ◌⊎◌, inl, inr, Bool, true, false, not, ◌&&◌, ◌||◌, Option,
  none, some, List, [], ◌∷◌, ◌==◌, ==_iff, All, any, is_some, is_empty, if◌then◌else◌, find_first,
  Bool-cases, Option-cases, arith,
}
use signalsync_be.Base.Python.{Outcome, returned, raised, ◌>>=◌, Outcome-cases}
use signalsync_be.Base.Text.{Text, text_eq, text_eq_iff, upper, strip}
use signalsync_be.Billing.{BillingError, no_unique_code}
use signalsync_be.Affiliates.{
  AffiliateProfile, ReferralAttribution, AffiliateTables, active, is_active, profile_of,
  profile_by_code, attribution_of, count,
}

abbrev pub has_code : Text → AffiliateProfile → Bool
has_code code p = text_eq p.code code

-- `code_exists`
pub code_exists : Text → List AffiliateProfile → Bool
code_exists code profiles = any (has_code code) profiles

pub fresh_code : ℕ → (ℕ → Text) → List AffiliateProfile → Option Text
unfolding code_exists
fresh_code zero draw profiles = none
fresh_code (suc n) draw profiles =
    let rest = fresh_code n draw profiles in
    if code_exists (draw n) profiles then rest else some (draw n)

abbrev pub new_profile : ℕ → Text → AffiliateProfile
new_profile user_id code = record {
  user_id = user_id;
  code = code;
  status = active;
  commission_rate_override = none;
}

abbrev pub Ensured : Type 0
Ensured = Outcome BillingError (AffiliateProfile × List AffiliateProfile)

abbrev pub add_profile : ℕ → Option Text → List AffiliateProfile → Ensured
add_profile user_id none profiles = raised no_unique_code
add_profile user_id (some code) profiles =
    returned (new_profile user_id code, new_profile user_id code ∷ profiles)

abbrev pub keep_or_add : Option AffiliateProfile → ℕ → (ℕ → Text) → List AffiliateProfile → Ensured
keep_or_add (some profile) user_id draw profiles = returned (profile, profiles)
keep_or_add none user_id draw profiles = add_profile user_id (fresh_code 8 draw profiles) profiles

-- `ensure_profile`
pub ensure_profile : (ℕ → Text) → ℕ → List AffiliateProfile → Ensured
unfolding fresh_code
ensure_profile draw user_id profiles =
    keep_or_add (profile_of user_id profiles) user_id draw profiles

abbrev pub active_profile : Option AffiliateProfile → Bool
active_profile none = false
active_profile (some profile) = is_active profile.status

-- `validate_code`
pub validate_code : Option Text → List AffiliateProfile → Bool
validate_code none profiles = false
validate_code (some code) profiles =
    not (is_empty code) && active_profile (profile_by_code (upper (strip code)) profiles)

-- A sign-up with the referral code that came with it.
pub record SignUp : Type 0 where
  pub user_id : ℕ
  pub referral_code : Option Text
  pub source : Option Text
  pub campaign : Option Text
  pub draw : ℕ → Text

abbrev pub Attributed : Type 0
Attributed = Option ReferralAttribution × AffiliateTables

abbrev pub attribution_for : SignUp → AffiliateProfile → ReferralAttribution
attribution_for sign_up profile = record {
  affiliate_user_id = profile.user_id;
  referred_user_id = sign_up.user_id;
  referral_code = profile.code;
  source = sign_up.source;
  campaign = sign_up.campaign;
}

abbrev pub attribute_to : SignUp → Option AffiliateProfile → AffiliateTables → Attributed
attribute_to sign_up none tables = (none, tables)
attribute_to sign_up (some profile) tables =
    if not (is_active profile.status) || profile.user_id == sign_up.user_id
    then (none, tables)
    else (
      some (attribution_for sign_up profile),
      record tables { attributions = attribution_for sign_up profile ∷ tables.attributions },
    )

abbrev pub attribute_code : SignUp → Option Text → AffiliateTables → Attributed
attribute_code sign_up none tables = (none, tables)
attribute_code sign_up (some code) tables =
    if is_empty code || is_some (attribution_of sign_up.user_id tables.attributions)
    then (none, tables)
    else attribute_to sign_up (profile_by_code (upper (strip code)) tables.profiles) tables

pub attribute_new_user : SignUp → AffiliateTables → Outcome BillingError Attributed
unfolding ensure_profile
attribute_new_user sign_up tables =
    ensure_profile sign_up.draw sign_up.user_id tables.profiles >>= λ ensured.
    returned (attribute_code sign_up sign_up.referral_code (record tables { profiles = ensured.1 }))

-- A sign-up that raises an exception is not committed.
abbrev pub signed_up : AffiliateTables → Outcome BillingError Attributed → AffiliateTables
signed_up tables (returned (_, changed)) = changed
signed_up tables (raised _) = tables

pub sign_up_all : List SignUp → AffiliateTables → AffiliateTables
unfolding attribute_new_user
sign_up_all [] tables = tables
sign_up_all (sign_up ∷ sign_ups) tables =
    sign_up_all sign_ups (signed_up tables (attribute_new_user sign_up tables))
