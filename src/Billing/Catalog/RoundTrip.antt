-- ===== src/Billing/Catalog/RoundTrip.antt =====
-- A product of the catalog is read back as the plan it was looked up for
-- (src/app/domains/billing/catalog.py).
use signalsync_be.Base.{
  ℕ, zero, suc, ◌≤◌, ◌≡◌, refl, ap, inl, inr, Bool, true, false, not, ◌||◌, Option, none, some,
  List, [], ◌∷◌, map, any, length, is_none, is_empty, ◌==◌, Bool-cases, or_split, or_true, or_left,
  Option-cases, arith,
}
use signalsync_be.Base.Int.{ℤ, pos, eq_of_parts}
use signalsync_be.Base.Python.{Outcome, returned}
use signalsync_be.Base.Text.{Text, text_eq, text_eq_iff, strip}
use signalsync_be.Billing.{BillingPlan, journal, copy, BillingError, same_limit}
use signalsync_be.Billing.Catalog.{
  Tiers, ProductCatalog, tiers_of, tier_at, tiers_up_to, other_keys, among, as_set, product_ids,
  is_refused, from_settings, product_for, entitlement_in, entitlement_for,
}

length-as_set : (texts : List Text) → length (as_set texts) ≤ length texts
unfolding as_set
length-as_set [] = omega arith
length-as_set (text ∷ texts) = ground (arith, length-as_set texts)

-- Every text is there once.
abbrev AllDiffer : List Text → Type 0
AllDiffer [] = Unit
AllDiffer (text ∷ texts) = (among text texts ≡ false) × AllDiffer texts

as_set-AllDiffer : (texts : List Text) → length texts ≡ length (as_set texts) → AllDiffer texts
unfolding as_set
as_set-AllDiffer [] h = tt
as_set-AllDiffer (text ∷ texts) h =
    let short = length-as_set texts in
    elim (Bool-cases (among text texts)) [
      | inl e ↦ absurd (omega (arith, rw e at h, short))
      | inr e ↦ (e, as_set-AllDiffer texts (omega (arith, rw e at h)))
    ]

same_limit-eq : (a b : ℤ) → same_limit a b ≡ true → a ≡ b
same_limit-eq a b h = eq_of_parts a b (ground arith)

tiers_up_to-offered :
    (tiers : Tiers) (n k : ℕ)
    → any (λ key. is_none (tier_at key tiers)) (tiers_up_to n) ≡ false
    → 1 ≤ k
    → k ≤ n
    → (product : Text) × (tier_at (pos k) tiers ≡ some product)
unfolding tiers_up_to
tiers_up_to-offered tiers zero k h low high = absurd (omega arith)
tiers_up_to-offered tiers (suc n) k h low high = elim (Option-cases (tier_at (pos (suc n)) tiers)) [
  | inl e ↦ absurd (cc (rw e at h))
  | inr (product, e) ↦
      let h' = rw e at h in
      elim (Bool-cases (k == suc n)) [
        | inl same ↦ (product, rw (num_eq k (suc n) same) e)
        | inr differ ↦ tiers_up_to-offered tiers n k h' low (ground arith)
      ]
]
  where
    num_eq : (a b : ℕ) → (a == b) ≡ true → a ≡ b
    num_eq a b p = ground arith

text_eq-same : (s t : Text) → s ≡ t → text_eq s t ≡ true
text_eq-same s t = (text_eq_iff s t).1

among-tier_at :
    (key : ℤ) (tiers : Tiers) {product : Text}
    → tier_at key tiers ≡ some product
    → among product (map (λ tier. tier.1) tiers) ≡ true
unfolding tier_at
among-tier_at key [] h = cc
among-tier_at key ((k, p) ∷ tiers) {product} h = elim (Bool-cases (same_limit k key)) [
  | inl e ↦ or_left _ (text_eq-same product p (cc (rw e at h)))
  | inr e ↦ or_true (text_eq product p) (among-tier_at key tiers (rw e at h))
]

differ_absurd {ℓ} :
    {A : Type ℓ} (s t : Text) (texts : List Text)
    → s ≡ t
    → among s texts ≡ true
    → among t texts ≡ false
    → A
differ_absurd s t texts same h k = absurd (cc (ap (λ u. among u texts) same, h, k))

entitlement_in-tier_at :
    (key : ℤ) (tiers : Tiers) {product : Text}
    → AllDiffer (map (λ tier. tier.1) tiers)
    → tier_at key tiers ≡ some product
    → entitlement_in product tiers ≡ returned (copy, key)
unfolding tier_at entitlement_in
entitlement_in-tier_at key [] d h = absurd (cc h)
entitlement_in-tier_at key ((k, p) ∷ tiers) {product} d h = elim (Bool-cases (same_limit k key)) [
  | inl e ↦ let q = rw e at h in rw ((text_eq_iff product p).1 cc) (rw (same_limit-eq k key e) refl)
  | inr e ↦ elim (Bool-cases (text_eq product p)) [
    | inl t ↦
        let same = (text_eq_iff product p).0 t in
        let seen = among-tier_at key tiers (rw e at h) in
        differ_absurd product p (map (λ tier. tier.1) tiers) same seen d.0
    | inr t ↦ rw t (entitlement_in-tier_at key tiers d.1 (rw e at h))
  ]
]

-- The plans on offer with their limits.
pub data IsOffered : BillingPlan → ℤ → Type 0 where
  journal_plan : IsOffered journal (pos 0)
  copy_plan : (n : ℕ) → 1 ≤ n → n ≤ 10 → IsOffered copy (pos n)

abbrev IsReadBack : ProductCatalog → BillingPlan → ℤ → Type 0
IsReadBack catalog plan limit =
    (product : Text) × (product_for catalog plan limit ≡ returned product)
    × (entitlement_for catalog product ≡ returned (plan, limit))

read_back :
    (journal_id : Text) (tiers : Tiers) {plan : BillingPlan} {limit : ℤ}
    → AllDiffer (product_ids journal_id tiers)
    → other_keys tiers ≡ false
    → IsOffered plan limit
    → IsReadBack (record { journal_product_id = journal_id; copy_product_ids = tiers }) plan limit
unfolding product_ids other_keys product_for entitlement_for
read_back journal_id tiers d h journal_plan =
    (journal_id, refl, rw ((text_eq_iff journal_id journal_id).1 refl) refl)
read_back journal_id tiers d h (copy_plan n low high) =
    let (product, e) = tiers_up_to-offered tiers 10 n (or_split _ _ h).1 low high in
    (
      product,
      rw e refl,
      elim (Bool-cases (text_eq product journal_id)) [
        | inl t ↦
            let same = (text_eq_iff product journal_id).0 t in
            let seen = among-tier_at (pos n) tiers e in
            differ_absurd product journal_id (map (λ tier. tier.1) tiers) same seen d.0
        | inr t ↦ rw t (entitlement_in-tier_at (pos n) tiers d.1 e)
      ],
    )

returned_injective :
    (a b : ProductCatalog)
    → ◌≡◌ {A = Outcome BillingError ProductCatalog} (returned a) (returned b)
    → a ≡ b
returned_injective a b h = cc

accepted :
    (journal_id : Text) (tiers : Tiers)
    → is_refused journal_id tiers ≡ false
    → (other_keys tiers ≡ false) × AllDiffer (product_ids journal_id tiers)
unfolding is_refused
accepted journal_id tiers h =
    let ids = product_ids journal_id tiers in
    let empty_tier = any (λ tier. is_empty tier.1) tiers in
    let repeated = not (length ids == length (as_set ids)) in
    let first = is_empty journal_id || other_keys tiers in
    let (rest, same) = or_split (first || empty_tier) repeated h in
    let (keys, _) = or_split first empty_tier rest in
    (
      (or_split (is_empty journal_id) (other_keys tiers) keys).1,
      as_set-AllDiffer ids (same_length _ _ same),
    )
  where
    same_length : (m n : ℕ) → not (m == n) ≡ false → m ≡ n
    same_length m n p = ground arith

-- For settings that the catalog accepts, each plan on offer, the journal and the copy tiers 1 to 10,
-- has a product, and that product is read back as the same plan with the same account limit.
pub entitlement_for-product_for :
    (raw_journal : Text) (raw_tiers : Option (List (ℤ × Text))) (catalog : ProductCatalog)
    {plan : BillingPlan} {limit : ℤ}
    → from_settings raw_journal raw_tiers ≡ returned catalog
    → IsOffered plan limit
    → (product : Text) × (product_for catalog plan limit ≡ returned product)
      × (entitlement_for catalog product ≡ returned (plan, limit))
unfolding from_settings
entitlement_for-product_for raw_journal none catalog h o = absurd (cc h)
entitlement_for-product_for raw_journal (some pairs) catalog {plan} {limit} h o =
    elim (Bool-cases refused) [
      | inl e ↦ absurd (cc (rw e at h))
      | inr e ↦
          let (keys, differ) = accepted (strip raw_journal) (tiers_of pairs []) e in
          returned_eq (rw e at h) (read_back (strip raw_journal) (tiers_of pairs []) differ keys o)
    ]
  where
    returned_eq :
        {made : ProductCatalog}
        → ◌≡◌ {A = Outcome BillingError ProductCatalog} (returned made) (returned catalog)
        → IsReadBack made plan limit
        → IsReadBack catalog plan limit
    returned_eq {made} same back = rw (← returned_injective made catalog same) back

    refused : Bool
    refused = is_refused (strip raw_journal) (tiers_of pairs [])
