-- ===== src/Billing/Catalog.antt =====
-- The product catalog: `ProductCatalog` of src/app/domains/billing/catalog.py.
-- A dictionary is an association list in the order of insertion. The JSON decoder with the
-- conversions `int(key)` and `str(value)` is not of the repository; its answer, none for an
-- exception, is an argument.
pub mod RoundTrip
use signalsync_be.Base.{
  ℕ, zero, suc, ◌≤◌, ◌≡◌, refl, ◌⊎◌, inl, inr, ap, Bool, true, false, not, ◌&&◌, ◌||◌, Option, none,
  some, List, [], ◌∷◌, map, any, length, is_none, is_some, is_empty, ◌==◌, if◌then◌else◌,
  Bool-cases, arith,
}
use signalsync_be.Base.Int.{ℤ, pos, leb_ℤ, eq_of_parts}
use signalsync_be.Base.Python.{Outcome, returned, raised}
use signalsync_be.Base.Text.{Text, text_eq, text_eq_iff, strip}
use signalsync_be.Billing.{
  BillingPlan, journal, copy, BillingError, unknown_product, tiers_out_of_range, bad_catalog,
  same_limit,
}

abbrev pub Tiers : Type 0
Tiers = List (ℤ × Text)

pub record ProductCatalog : Type 0 where
  pub journal_product_id : Text
  pub copy_product_ids : Tiers

abbrev pub max_copy_accounts : ℕ
max_copy_accounts = 10

-- `tiers[key] = product`
unfoldable pub put : ℤ → Text → Tiers → Tiers
put key product [] = (key, product) ∷ []
put key product ((k, p) ∷ tiers) =
    let rest = put key product tiers in
    if same_limit k key then (k, product) ∷ tiers else (k, p) ∷ rest

-- `{int(key): str(value).strip() for ...}`
unfoldable pub tiers_of : List (ℤ × Text) → Tiers → Tiers
unfolding put
tiers_of [] tiers = tiers
tiers_of ((key, value) ∷ pairs) tiers = tiers_of pairs (put key (strip value) tiers)

-- `tiers[key]`
unfoldable pub tier_at : ℤ → Tiers → Option Text
tier_at key [] = none
tier_at key ((k, product) ∷ tiers) =
    let rest = tier_at key tiers in if same_limit k key then some product else rest

-- `range(1, n + 1)`, from its end
unfoldable pub tiers_up_to : ℕ → List ℤ
tiers_up_to zero = []
tiers_up_to (suc n) = pos (suc n) ∷ tiers_up_to n

abbrev pub is_tier : ℤ → Bool
is_tier key = leb_ℤ (pos 1) key && leb_ℤ key (pos max_copy_accounts)

-- `set(tiers) != expected`
unfoldable pub other_keys : Tiers → Bool
unfolding tier_at tiers_up_to
other_keys tiers =
    any (λ tier. not (is_tier tier.0)) tiers
    || any (λ key. is_none (tier_at key tiers)) (tiers_up_to max_copy_accounts)

abbrev pub among : Text → List Text → Bool
among text texts = any (λ other. text_eq text other) texts

-- `set(texts)`
unfoldable pub as_set : List Text → List Text
as_set [] = []
as_set (text ∷ texts) = let rest = as_set texts in if among text texts then rest else text ∷ rest

unfoldable pub product_ids : Text → Tiers → List Text
product_ids journal_id tiers = journal_id ∷ map (λ tier. tier.1) tiers

-- The tests on the journal product and the tiers, in the order of the code, with one outcome.
unfoldable pub is_refused : Text → Tiers → Bool
unfolding other_keys product_ids as_set
is_refused journal_id tiers =
    let ids = product_ids journal_id tiers in
    is_empty journal_id
    || other_keys tiers
    || any (λ tier. is_empty tier.1) tiers
    || not (length ids == length (as_set ids))

unfoldable pub from_settings : Text → Option (List (ℤ × Text)) → Outcome BillingError ProductCatalog
unfolding tiers_of is_refused
from_settings raw_journal none = raised bad_catalog
from_settings raw_journal (some pairs) =
    let journal_id = strip raw_journal in
    let tiers = tiers_of pairs [] in
    if is_refused journal_id tiers
    then raised bad_catalog
    else returned (record { journal_product_id = journal_id; copy_product_ids = tiers })

abbrev pub product_or_error : Option Text → Outcome BillingError Text
product_or_error none = raised tiers_out_of_range
product_or_error (some product) = returned product

pub product_for : ProductCatalog → BillingPlan → ℤ → Outcome BillingError Text
unfolding tier_at
product_for catalog journal copy_accounts = returned catalog.journal_product_id
product_for catalog copy copy_accounts =
    product_or_error (tier_at copy_accounts catalog.copy_product_ids)

pub entitlement_in : Text → Tiers → Outcome BillingError (BillingPlan × ℤ)
entitlement_in product [] = raised unknown_product
entitlement_in product ((limit, candidate) ∷ tiers) =
    let rest = entitlement_in product tiers in
    if text_eq product candidate then returned (copy, limit) else rest

pub entitlement_for : ProductCatalog → Text → Outcome BillingError (BillingPlan × ℤ)
unfolding entitlement_in
entitlement_for catalog product =
    if text_eq product catalog.journal_product_id
    then returned (journal, pos 0)
    else entitlement_in product catalog.copy_product_ids
