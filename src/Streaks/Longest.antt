-- ===== src/Streaks/Longest.antt =====
-- The loops find the longest and the current streak
-- (src/app/domains/ai/tools/streaks_drawdown.py).
use signalsync_be.Base.{
  ℕ, suc, ◌+◌, ◌≤◌, ◌≡◌, refl, inl, inr, max, Bool, true, false, List, [], ◌∷◌, if◌then◌else◌,
  Bool-cases, arith,
}
use signalsync_be.Base.Int.{ℤ}
use signalsync_be.Streaks.{is_win, is_loss, Streaks, no_streak, count_profit, count_streaks}

-- The number of profits at the head of a list that pass a test, and the most in a row anywhere.
abbrev pub lead : (ℤ → Bool) → List ℤ → ℕ
lead test [] = 0
lead test (p ∷ profits) = let rest = lead test profits in if test p then suc rest else 0

abbrev pub longest : (ℤ → Bool) → List ℤ → ℕ
longest test [] = 0
longest test (p ∷ profits) = max (lead test (p ∷ profits)) (longest test profits)

lead-longest : (test : ℤ → Bool) (profits : List ℤ) → lead test profits ≤ longest test profits
lead-longest test [] = omega arith
lead-longest test (p ∷ profits) = omega arith

pub not_both : (p : ℤ) → is_win p ≡ true → is_loss p ≡ false
not_both p h = ground arith

-- The maximum that the loop still reaches from a running streak of length `cur`.
abbrev reached : (ℤ → Bool) → List ℤ → ℕ → ℕ → ℕ
reached test profits most cur = max (max most (cur + lead test profits)) (longest test profits)

abbrev pub after_win : Streaks → Streaks
after_win s = record s {
  max_win = max s.max_win (suc s.cur_win);
  cur_win = suc s.cur_win;
  cur_loss = 0;
}

abbrev pub after_loss : Streaks → Streaks
after_loss s = record s {
  max_loss = max s.max_loss (suc s.cur_loss);
  cur_loss = suc s.cur_loss;
  cur_win = 0;
}

abbrev pub after_flat : Streaks → Streaks
after_flat s = record s { cur_win = 0; cur_loss = 0 }

pub count_profit-win : (p : ℤ) (s : Streaks) → is_win p ≡ true → count_profit p s ≡ after_win s
count_profit-win p s w = rw w refl

pub count_profit-loss :
    (p : ℤ) (s : Streaks) → is_win p ≡ false → is_loss p ≡ true → count_profit p s ≡ after_loss s
count_profit-loss p s w l = rw (w, l) refl

pub count_profit-flat :
    (p : ℤ) (s : Streaks) → is_win p ≡ false → is_loss p ≡ false → count_profit p s ≡ after_flat s
count_profit-flat p s w l = rw (w, l) refl

-- What the loop reaches on a list from a state.
record Reaches (profits : List ℤ) (from to : Streaks) : Type 0 where
  pub win_reached : to.max_win ≡ reached is_win profits from.max_win from.cur_win
  pub loss_reached : to.max_loss ≡ reached is_loss profits from.max_loss from.cur_loss

Reaches-win :
    (p : ℤ) (profits : List ℤ) (s to : Streaks)
    → is_win p ≡ true
    → s.cur_win ≤ s.max_win
    → s.cur_loss ≤ s.max_loss
    → Reaches profits (after_win s) to
    → Reaches (p ∷ profits) s to
Reaches-win p profits s to w hw hl go = record {
  win_reached = rw (w) omega (arith, go.win_reached, hw, lead-longest is_win profits);
  loss_reached = rw (not_both p w) omega (arith, go.loss_reached, hl, lead-longest is_loss profits);
}

Reaches-loss :
    (p : ℤ) (profits : List ℤ) (s to : Streaks)
    → is_win p ≡ false
    → is_loss p ≡ true
    → s.cur_win ≤ s.max_win
    → s.cur_loss ≤ s.max_loss
    → Reaches profits (after_loss s) to
    → Reaches (p ∷ profits) s to
Reaches-loss p profits s to w l hw hl go = record {
  win_reached = rw (w) omega (arith, go.win_reached, hw, lead-longest is_win profits);
  loss_reached = rw (l) omega (arith, go.loss_reached, hl, lead-longest is_loss profits);
}

Reaches-flat :
    (p : ℤ) (profits : List ℤ) (s to : Streaks)
    → is_win p ≡ false
    → is_loss p ≡ false
    → s.cur_win ≤ s.max_win
    → s.cur_loss ≤ s.max_loss
    → Reaches profits (after_flat s) to
    → Reaches (p ∷ profits) s to
Reaches-flat p profits s to w l hw hl go = record {
  win_reached = rw (w) omega (arith, go.win_reached, hw, lead-longest is_win profits);
  loss_reached = rw (l) omega (arith, go.loss_reached, hl, lead-longest is_loss profits);
}

count_streaks-Reaches :
    (profits : List ℤ) (s : Streaks)
    → s.cur_win ≤ s.max_win
    → s.cur_loss ≤ s.max_loss
    → Reaches profits s (count_streaks profits s)
unfolding count_streaks
count_streaks-Reaches [] s hw hl = record {
  win_reached = omega (arith, hw);
  loss_reached = omega (arith, hl);
}
count_streaks-Reaches (p ∷ profits) s hw hl = elim (Bool-cases (is_win p)) [
  | inl w ↦ rw (count_profit-win p s w) (
      Reaches-win p profits s (count_streaks profits (after_win s)) w hw hl
        (count_streaks-Reaches profits (after_win s) (omega arith) (omega arith)))
  | inr w ↦ elim (Bool-cases (is_loss p)) [
    | inl l ↦ rw (count_profit-loss p s w l) (
        Reaches-loss p profits s (count_streaks profits (after_loss s)) w l hw hl
          (count_streaks-Reaches profits (after_loss s) (omega arith) (omega arith)))
    | inr l ↦ rw (count_profit-flat p s w l) (
        Reaches-flat p profits s (count_streaks profits (after_flat s)) w l hw hl
          (count_streaks-Reaches profits (after_flat s) (omega arith) (omega arith)))
  ]
]

-- For every list of profits, the loop started from nothing ends with the most profits above zero
-- in a row anywhere in the list as its longest winning streak, and with the most below zero in a
-- row as its longest losing streak.
pub count_streaks-longest :
    (profits : List ℤ)
    → ((count_streaks profits no_streak).max_win ≡ longest is_win profits)
      × ((count_streaks profits no_streak).max_loss ≡ longest is_loss profits)
count_streaks-longest profits =
    let all = count_streaks-Reaches profits no_streak (omega arith) (omega arith) in
    (
      omega (arith, all.win_reached, lead-longest is_win profits),
      omega (arith, all.loss_reached, lead-longest is_loss profits),
    )
