-- ===== src/Affiliates/Examples.antt =====
-- Examples for referrals and commissions (src/app/domains/affiliates/service.py).
use signalsync_be.Base.{ℕ, refl, Option, none, some, List, [], ◌∷◌, zero, suc}
use signalsync_be.Base.Text.{Text, codes}
use signalsync_be.Billing.Payload.{text, EventData}
use signalsync_be.Billing.Sample.{library, library-share, blank, subscription}
use signalsync_be.Affiliates.{AffiliateTables, active, refund, get_or_create_settings}
use signalsync_be.Affiliates.Reversals.{
  Request, invoice_paid, money_back, dashboard_opened, serve_all,
}
use signalsync_be.Affiliates.Sound.{IsSound}
use signalsync_be.Affiliates.Once.{serve_all-IsSound}
use signalsync_be.Affiliates.Referrals.{SignUp, sign_up_all}
use signalsync_be.Affiliates.Referrals.Single.{IsReferral, sign_up_all-IsReferral}

abbrev invoice : EventData
invoice = record blank {
  invoice_id = text (codes "i1");
  subscription_id = text (codes "s1");
  amount = text (codes "20.00");
}

-- User 3 referred user 7.
abbrev tables : AffiliateTables
tables = record {
  settings = none;
  profiles =
      record { user_id = 3; code = codes "ABC"; status = active; commission_rate_override = none }
      ∷ [];
  attributions =
      record {
        affiliate_user_id = 3;
        referred_user_id = 7;
        referral_code = codes "ABC";
        source = none;
        campaign = none;
      }
      ∷ [];
  commissions = [];
}

abbrev requests : List Request
requests =
    invoice_paid 100 invoice
    ∷ invoice_paid 101 invoice
    ∷ money_back 200 refund (record invoice { amount = text (codes "2.") })
    ∷ dashboard_opened 300 3
    ∷ []

serve_all-IsSound_example :
    IsSound 12 (serve_all library (subscription ∷ []) requests tables).commissions
unfolding get_or_create_settings
serve_all-IsSound_example =
    serve_all-IsSound library (subscription ∷ []) requests tables library-share refl

abbrev draw : ℕ → Text
draw zero = codes "AAA"
draw (suc n) = codes "ABC"

abbrev sign_up : ℕ → Option Text → SignUp
sign_up user_id code = record {
  user_id = user_id;
  referral_code = code;
  source = none;
  campaign = none;
  draw = draw;
}

abbrev no_tables : AffiliateTables
no_tables = record { settings = none; profiles = []; attributions = []; commissions = [] }

abbrev sign_ups : List SignUp
sign_ups = sign_up 3 none ∷ sign_up 7 (some (codes " abc")) ∷ sign_up 7 (some (codes "ABC")) ∷ []

sign_up_all-IsReferral_example : IsReferral (sign_up_all sign_ups no_tables)
sign_up_all-IsReferral_example = sign_up_all-IsReferral sign_ups no_tables refl refl
