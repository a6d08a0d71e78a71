-- ===== src/Generations/Merged.antt =====
-- What a merged context holds (src/app/domains/copy_trading/generations.py).
use signalsync_be.Base.{
  ℕ, ◌≡◌, ◌≢◌, refl, Bool, true, false, not, ◌&&◌, ◌||◌, some, List, [], ◌∷◌, ◌++◌, ◌==◌, ==_iff,
  arith, Bool-cases, Option-cases, is_empty, inl, inr,
}
use signalsync_be.Generations.{
  action, take_profits, stop_loss, other_key, Value, numbers, Context, get, set, merge_context,
  among, open_actions, management_actions, targets_of, holds, first_occurrences, merge_targets,
  keep_action, merge_generation_context,
}

get-set_action : (value : Value) (c : Context) → get action (set action value c) ≡ some value
unfolding get set
get-set_action value [] = refl
get-set_action value ((action, old) ∷ c) = refl
get-set_action value ((take_profits, old) ∷ c) = get-set_action value c
get-set_action value ((stop_loss, old) ∷ c) = get-set_action value c
get-set_action value ((other_key n, old) ∷ c) = get-set_action value c

get-set_targets :
    (value : Value) (c : Context) → get take_profits (set take_profits value c) ≡ some value
unfolding get set
get-set_targets value [] = refl
get-set_targets value ((action, old) ∷ c) = get-set_targets value c
get-set_targets value ((take_profits, old) ∷ c) = refl
get-set_targets value ((stop_loss, old) ∷ c) = get-set_targets value c
get-set_targets value ((other_key n, old) ∷ c) = get-set_targets value c

targets-set_action :
    (value : Value) (c : Context) → get take_profits (set action value c) ≡ get take_profits c
unfolding get set
targets-set_action value [] = refl
targets-set_action value ((action, old) ∷ c) = refl
targets-set_action value ((take_profits, old) ∷ c) = refl
targets-set_action value ((stop_loss, old) ∷ c) = targets-set_action value c
targets-set_action value ((other_key n, old) ∷ c) = targets-set_action value c

targets-keep_action :
    (submitted : Bool) (current update merged : Context)
    → get take_profits (keep_action submitted current update merged) ≡ get take_profits merged
unfolding keep_action
targets-keep_action submitted current update merged =
    elim (Bool-cases (
      not submitted
      && (among open_actions (get action current)
          && among management_actions (get action update)))) [
            | inr e ↦ rw e refl
            | inl e ↦ elim (Option-cases (get action current)) [
              | inl n ↦ rw (e, n) refl
              | inr (value, s) ↦ rw (e, s) (targets-set_action value merged)
            ]
          ]

-- No element occurs twice.
abbrev pub IsDistinct : List ℕ → Type 0
IsDistinct [] = Unit
IsDistinct (n ∷ ns) = (holds n ns ≡ false) × IsDistinct ns

first_occurrences-holds :
    (seen ns : List ℕ) (n : ℕ)
    → holds n (first_occurrences seen ns) ≡ (holds n ns && not (holds n seen))
unfolding first_occurrences
first_occurrences-holds seen [] n = refl
first_occurrences-holds seen (m ∷ ns) n =
    let with_m = first_occurrences-holds (m ∷ seen) ns n in
    let without_m = first_occurrences-holds seen ns n in
    elim (Bool-cases (holds m seen)) [
      | inr e ↦ rw e (ground (arith, with_m))
      | inl e ↦ elim (Bool-cases (m == n)) [
        | inr d ↦ rw (e, d) without_m
        | inl d ↦
            let same = (==_iff m n).0 d in
            let known : holds n seen ≡ true = rw same at e in
            rw (e, d, known) (ground (arith, without_m, known))
      ]
    ]

first_occurrences-IsDistinct : (seen ns : List ℕ) → IsDistinct (first_occurrences seen ns)
unfolding first_occurrences
first_occurrences-IsDistinct seen [] = tt
first_occurrences-IsDistinct seen (m ∷ ns) = elim (Bool-cases (holds m seen)) [
  | inl e ↦ rw e (first_occurrences-IsDistinct seen ns)
  | inr e ↦ rw e (
    ground (arith, first_occurrences-holds (m ∷ seen) ns m, (==_iff m m).1 refl),
    first_occurrences-IsDistinct (m ∷ seen) ns,
  )
]

is_filled : (ns : List ℕ) → ns ≢ [] → is_empty ns ≡ false
is_filled [] h = elim (h refl) [ ]
is_filled (n ∷ ns) h = refl

holds-append : (xs ys : List ℕ) (n : ℕ) → holds n (xs ++ ys) ≡ (holds n xs || holds n ys)
holds-append [] ys n = refl
holds-append (x ∷ xs) ys n = ground (arith, holds-append xs ys n)

-- As long as the opening is not submitted, targets that are merged into it are added to those it
-- has: the new list holds the targets of both, each once.
pub merge_generation_context-targets :
    (current update : Context)
    → targets_of (get take_profits update) ≢ []
    → let merged = targets_of (get take_profits (merge_generation_context current update false)) in
      IsDistinct merged
      × ((n : ℕ)
          → holds n merged ≡ (
              holds n (targets_of (get take_profits current))
              || holds n (targets_of (get take_profits update))))
unfolding merge_generation_context merge_targets
merge_generation_context-targets current update some_targets =
    let all = targets_of (get take_profits current) ++ targets_of (get take_profits update) in
    rw
      (targets-keep_action false current update
        (merge_targets false current update (merge_context current update)))
      (rw (is_filled (targets_of (get take_profits update)) some_targets) (
        rw (get-set_targets (numbers (first_occurrences [] all)) (merge_context current update)) (
          first_occurrences-IsDistinct [] all,
          λ n. ground (
            arith,
            first_occurrences-holds [] all n,
            holds-append (targets_of (get take_profits current))
                (targets_of (get take_profits update)) n,
          ),
        )))
