-- ===== src/Streaks.antt =====
-- Winning and losing streaks: the loops of `get_streaks_and_drawdown` in
-- src/app/domains/ai/tools/streaks_drawdown.py, which runs them on the profits of the trades and on
-- those of the days. Only the sign of a profit is read.
pub mod Current
pub mod Longest
mod Examples
use mathlib.Core.List.{reverse}
use signalsync_be.Base.{ℕ, suc, max, Bool, true, false, ◌&&◌, List, [], ◌∷◌, if◌then◌else◌, ltb}
use signalsync_be.Base.Int.{ℤ, pos, ltb_ℤ}

abbrev pub is_win : ℤ → Bool
is_win p = ltb_ℤ (pos 0) p

abbrev pub is_loss : ℤ → Bool
is_loss p = ltb_ℤ p (pos 0)

pub record Streaks : Type 0 where
  pub max_win : ℕ
  pub max_loss : ℕ
  pub cur_win : ℕ
  pub cur_loss : ℕ

abbrev pub no_streak : Streaks
no_streak = record { max_win = 0; max_loss = 0; cur_win = 0; cur_loss = 0 }

-- The body of the loop.
abbrev pub count_profit : ℤ → Streaks → Streaks
count_profit p s =
    if is_win p
    then record s { max_win = max s.max_win (suc s.cur_win); cur_win = suc s.cur_win; cur_loss = 0 }
    else if is_loss p
    then record s {
      max_loss = max s.max_loss (suc s.cur_loss);
      cur_loss = suc s.cur_loss;
      cur_win = 0;
    }
    else record s { cur_win = 0; cur_loss = 0 }

pub count_streaks : List ℤ → Streaks → Streaks
count_streaks [] s = s
count_streaks (p ∷ profits) s = count_streaks profits (count_profit p s)

pub data StreakType : Type 0 where
  win loss none_yet : StreakType

abbrev pub may_win : StreakType → Bool
may_win loss = false
may_win _ = true

abbrev pub may_lose : StreakType → Bool
may_lose win = false
may_lose _ = true

-- The loop over the reversed profits, which breaks at the first that does not go on.
pub current_from : List ℤ → StreakType → ℕ → StreakType × ℕ
current_from [] type count = (type, count)
current_from (p ∷ profits) type count =
    let as_win = current_from profits win (suc count) in
    let as_loss = current_from profits loss (suc count) in
    if is_win p && may_win type
    then as_win
    else if is_loss p && may_lose type
    then as_loss
    else (type, count)

pub current_streak : List ℤ → StreakType × ℕ
unfolding current_from
current_streak profits = current_from (reverse profits) none_yet 0
