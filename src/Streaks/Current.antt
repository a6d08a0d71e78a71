-- ===== src/Streaks/Current.antt =====
-- The loop over the reversed profits and the loop over the profits count the same current streak
-- (src/app/domains/ai/tools/streaks_drawdown.py).
use mathlib.Core.List.{reverse, reverse-cons, reverse-reverse}
use signalsync_be.Base.{
  ℕ, suc, zero, ◌+◌, ◌≡◌, refl, sym, ap, ◌∙◌, inl, inr, List, [], ◌∷◌, ◌++◌, Bool-cases, arith,
}
use signalsync_be.Base.Int.{ℤ}
use signalsync_be.Streaks.{
  is_win, is_loss, Streaks, no_streak, count_profit, count_streaks, StreakType, win, loss, none_yet,
  current_from, current_streak,
}
use signalsync_be.Streaks.Longest.{not_both}

-- The state of the forward loop after a list given from its end.
abbrev count_back : List ℤ → Streaks
count_back [] = no_streak
count_back (p ∷ before) = count_profit p (count_back before)

count_streaks-append :
    (profits : List ℤ) (p : ℤ) (s : Streaks)
    → count_streaks (profits ++ (p ∷ [])) s ≡ count_profit p (count_streaks profits s)
unfolding count_streaks
count_streaks-append [] p s = refl
count_streaks-append (q ∷ profits) p s = count_streaks-append profits p (count_profit q s)

count_streaks-reverse :
    (before : List ℤ) → count_streaks (reverse before) no_streak ≡ count_back before
unfolding count_streaks
count_streaks-reverse [] = refl
count_streaks-reverse (p ∷ before) =
    ap (λ profits. count_streaks profits no_streak) (reverse-cons p before)
    ∙ count_streaks-append (reverse before) p no_streak
    ∙ ap (count_profit p) (count_streaks-reverse before)

current_from-win :
    (before : List ℤ) (n : ℕ) → current_from before win n ≡ (win, n + (count_back before).cur_win)
unfolding current_from
current_from-win [] n = ap (λ m. (win, m)) (omega arith)
current_from-win (p ∷ before) n = elim (Bool-cases (is_win p)) [
  | inl w ↦ rw (w) (current_from-win before (suc n) ∙ ap (λ m. (win, m)) (omega arith))
  | inr w ↦ elim (Bool-cases (is_loss p)) [
    | inl l ↦ rw (w, l) (ap (λ m. (win, m)) (omega arith))
    | inr l ↦ rw (w, l) (ap (λ m. (win, m)) (omega arith))
  ]
]

current_from-loss :
    (before : List ℤ) (n : ℕ)
    → current_from before loss n ≡ (loss, n + (count_back before).cur_loss)
unfolding current_from
current_from-loss [] n = ap (λ m. (loss, m)) (omega arith)
current_from-loss (p ∷ before) n = elim (Bool-cases (is_win p)) [
  | inl w ↦ rw (w, not_both p w) (ap (λ m. (loss, m)) (omega arith))
  | inr w ↦ elim (Bool-cases (is_loss p)) [
    | inl l ↦ rw (w, l) (current_from-loss before (suc n) ∙ ap (λ m. (loss, m)) (omega arith))
    | inr l ↦ rw (w, l) (ap (λ m. (loss, m)) (omega arith))
  ]
]

-- The running streak of the forward loop.
abbrev pub running_of : ℕ → ℕ → StreakType × ℕ
running_of (suc wins) losses = (win, suc wins)
running_of zero (suc losses) = (loss, suc losses)
running_of zero zero = (none_yet, 0)

abbrev pub running : Streaks → StreakType × ℕ
running s = running_of s.cur_win s.cur_loss

current_from-running :
    (before : List ℤ) → current_from before none_yet 0 ≡ running (count_back before)
unfolding current_from
current_from-running [] = refl
current_from-running (p ∷ before) = elim (Bool-cases (is_win p)) [
  | inl w ↦ rw (w) (current_from-win before 1 ∙ ap (λ m. (win, m)) (omega arith))
  | inr w ↦ elim (Bool-cases (is_loss p)) [
    | inl l ↦ rw (w, l) (current_from-loss before 1 ∙ ap (λ m. (loss, m)) (omega arith))
    | inr l ↦ rw (w, l) refl
  ]
]

-- For every list of profits, the streak that the loop over the reversed list counts until it
-- breaks is the running streak the loop over the list is left with: its wins when it has some,
-- else its losses when it has some, else none.
pub current_streak-running :
    (profits : List ℤ) → current_streak profits ≡ running (count_streaks profits no_streak)
unfolding current_streak
current_streak-running profits =
    current_from-running (reverse profits)
    ∙ ap running (
        sym (count_streaks-reverse (reverse profits))
        ∙ ap (λ back. count_streaks back no_streak) (reverse-reverse profits))
