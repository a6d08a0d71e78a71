-- ===== src/Affiliates/Referrals/Single.antt =====
-- One profile for a user, one owner of a code, one referrer of a user
-- (src/app/domains/affiliates/service.py).
use signalsync_be.Base.{
  ℕ, zero, suc, ◌≤◌, ◌≡◌, ◌≢◌, refl, inl, inr, Bool, false, not, ◌||◌, Option, none, some, List, [],
  ◌∷◌, ◌==◌, ==_iff, All, any, is_some, is_empty, Bool-cases, or_split, not_some, Option-cases,
  arith,
}
use signalsync_be.Base.Python.{returned, raised, Outcome-cases}
use signalsync_be.Base.Text.{Text, text_eq, text_eq_iff, upper, strip}
use signalsync_be.Affiliates.{
  AffiliateProfile, ReferralAttribution, AffiliateTables, is_active, profile_of, profile_by_code,
  attribution_of, count,
}
use signalsync_be.Affiliates.Sound.{find_first-none}
use signalsync_be.Affiliates.Referrals.{
  has_code, code_exists, fresh_code, Ensured, add_profile, ensure_profile, SignUp, attribute_to,
  attribute_code, attribute_new_user, signed_up, sign_up_all,
}

abbrev pub IsNoSelfReferral : ReferralAttribution → Type 0
IsNoSelfReferral a = a.affiliate_user_id ≢ a.referred_user_id

pub record IsReferral (tables : AffiliateTables) : Type 0 where
  pub one_profile : (user_id : ℕ) → count (λ p. p.user_id == user_id) tables.profiles ≤ 1
  pub one_owner : (code : Text) → count (has_code code) tables.profiles ≤ 1
  pub one_referrer :
      (user_id : ℕ) → count (λ a. a.referred_user_id == user_id) tables.attributions ≤ 1
  pub no_self_referral : All IsNoSelfReferral tables.attributions

any-none {ℓ} :
    {A : Type ℓ} (test : A → Bool) (rows : List A) → any test rows ≡ false → count test rows ≡ 0
any-none test [] h = refl
any-none test (a ∷ rows) h = elim (Bool-cases (test a)) [
  | inl e ↦ absurd (cc (rw e at h))
  | inr e ↦ rw e (any-none test rows (rw e at h))
]

abbrev IsFresh : List AffiliateProfile → Option Text → Type 0
IsFresh profiles none = Unit
IsFresh profiles (some code) = count (has_code code) profiles ≡ 0

fresh_code-IsFresh :
    (n : ℕ) (draw : ℕ → Text) (profiles : List AffiliateProfile)
    → IsFresh profiles (fresh_code n draw profiles)
unfolding fresh_code code_exists
fresh_code-IsFresh zero draw profiles = tt
fresh_code-IsFresh (suc n) draw profiles = elim (Bool-cases (code_exists (draw n) profiles)) [
  | inl e ↦ rw e (fresh_code-IsFresh n draw profiles)
  | inr e ↦ rw e (any-none (has_code (draw n)) profiles e)
]

abbrev IsProfiles : List AffiliateProfile → Type 0
IsProfiles profiles =
    ((user_id : ℕ) → count (λ p. p.user_id == user_id) profiles ≤ 1)
    × ((code : Text) → count (has_code code) profiles ≤ 1)

abbrev IsAllProfiles : Ensured → Type 0
IsAllProfiles (returned (_, profiles)) = IsProfiles profiles
IsAllProfiles (raised _) = Unit

add_profile-IsProfiles :
    (user_id : ℕ) (code : Option Text) (profiles : List AffiliateProfile)
    → IsFresh profiles code
    → profile_of user_id profiles ≡ none
    → IsProfiles profiles
    → IsAllProfiles (add_profile user_id code profiles)
add_profile-IsProfiles user_id none profiles fresh h s = tt
add_profile-IsProfiles user_id (some code) profiles fresh h (users, codes) = (
  λ other. elim (Bool-cases (user_id == other)) [
    | inl e ↦
        let no_user = find_first-none (λ p. p.user_id == user_id) profiles h in
        rw e (omega (arith, rw ((==_iff user_id other).0 e) at no_user))
    | inr e ↦ rw e (users other)
  ],
  λ other. elim (Bool-cases (text_eq code other)) [
    | inl e ↦ rw e (omega (arith, rw ((text_eq_iff code other).0 e) at fresh))
    | inr e ↦ rw e (codes other)
  ],
)

ensure_profile-IsProfiles :
    (draw : ℕ → Text) (user_id : ℕ) (profiles : List AffiliateProfile)
    → IsProfiles profiles
    → IsAllProfiles (ensure_profile draw user_id profiles)
unfolding ensure_profile
ensure_profile-IsProfiles draw user_id profiles h =
    elim (Option-cases (profile_of user_id profiles)) [
      | inl e ↦ rw e (
          add_profile-IsProfiles user_id (fresh_code 8 draw profiles) profiles
            (fresh_code-IsFresh 8 draw profiles) e h)
      | inr (profile, e) ↦ rw e h
    ]

module _ (sign_up : SignUp) where
  attribute_to-IsReferral :
      (found : Option AffiliateProfile) (tables : AffiliateTables)
      → attribution_of sign_up.user_id tables.attributions ≡ none
      → IsReferral tables
      → IsReferral (attribute_to sign_up found tables).1
  attribute_to-IsReferral none tables fresh s = s
  attribute_to-IsReferral (some profile) tables fresh s = elim (Bool-cases refused) [
    | inl e ↦ rw e s
    | inr e ↦ rw e record {
      one_profile = s.one_profile;
      one_owner = s.one_owner;
      one_referrer = λ other. elim (Bool-cases (sign_up.user_id == other)) [
        | inl same ↦
            let unseen =
              find_first-none (λ a. a.referred_user_id == sign_up.user_id) tables.attributions
                fresh in
            rw same (omega (arith, rw ((==_iff sign_up.user_id other).0 same) at unseen))
        | inr differ ↦ rw differ (s.one_referrer other)
      ];
      no_self_referral = (
        λ same.
            let test =
              or_split (not (is_active profile.status)) (profile.user_id == sign_up.user_id) e in
            absurd (cc ((==_iff profile.user_id sign_up.user_id).1 same, test.1)),
        s.no_self_referral,
      );
    }
  ]
    where
      refused : Bool
      refused = not (is_active profile.status) || profile.user_id == sign_up.user_id

  attribute_code-IsReferral :
      (code : Option Text) (tables : AffiliateTables)
      → IsReferral tables
      → IsReferral (attribute_code sign_up code tables).1
  attribute_code-IsReferral none tables s = s
  attribute_code-IsReferral (some code) tables s = elim (Bool-cases skipped) [
    | inl e ↦ rw e s
    | inr e ↦ rw e (
        attribute_to-IsReferral (profile_by_code (upper (strip code)) tables.profiles) tables
          (not_some (attribution_of sign_up.user_id tables.attributions) (or_split _ _ e).1) s)
  ]
    where
      skipped : Bool
      skipped = is_empty code || is_some (attribution_of sign_up.user_id tables.attributions)

  attribute_new_user-IsReferral :
      (tables : AffiliateTables)
      → IsReferral tables
      → IsReferral (signed_up tables (attribute_new_user sign_up tables))
  unfolding attribute_new_user
  attribute_new_user-IsReferral tables s =
      let fine =
        ensure_profile-IsProfiles sign_up.draw sign_up.user_id tables.profiles
          (s.one_profile, s.one_owner) in
      elim (Outcome-cases (ensure_profile sign_up.draw sign_up.user_id tables.profiles)) [
        | inl ((profile, profiles), e) ↦
            let (users, codes) = rw e at fine in
            rw e (
              attribute_code-IsReferral sign_up.referral_code
                (record tables { profiles = profiles })
                (record {
                  one_profile = users;
                  one_owner = codes;
                  one_referrer = s.one_referrer;
                  no_self_referral = s.no_self_referral;
                }))
        | inr (error, e) ↦ rw e s
      ]

sign_up_all-keeps :
    (sign_ups : List SignUp) (tables : AffiliateTables)
    → IsReferral tables
    → IsReferral (sign_up_all sign_ups tables)
unfolding sign_up_all
sign_up_all-keeps [] tables s = s
sign_up_all-keeps (sign_up ∷ sign_ups) tables s =
    sign_up_all-keeps sign_ups (signed_up tables (attribute_new_user sign_up tables))
      (attribute_new_user-IsReferral sign_up tables s)

-- After any sign-ups, from tables without profiles and referrals, and whatever codes are drawn and
-- entered: a user has at most one profile, a code has at most one owner, a user was referred at
-- most once, and nobody referred himself.
pub sign_up_all-IsReferral :
    (sign_ups : List SignUp) (tables : AffiliateTables)
    → tables.profiles ≡ []
    → tables.attributions ≡ []
    → IsReferral (sign_up_all sign_ups tables)
sign_up_all-IsReferral sign_ups tables no_profile no_referral =
    sign_up_all-keeps sign_ups tables (record {
      one_profile = λ user_id. rw no_profile (omega arith);
      one_owner = λ code. rw no_profile (omega arith);
      one_referrer = λ user_id. rw no_referral (omega arith);
      no_self_referral = rw no_referral tt;
    })
