-- ===== src/Streaks/Examples.antt =====
-- Examples for the streaks (src/app/domains/ai/tools/streaks_drawdown.py).
use signalsync_be.Base.{◌≡◌, refl, List, [], ◌∷◌}
use signalsync_be.Base.Int.{ℤ, pos, negsuc}
use signalsync_be.Streaks.{is_win, is_loss, no_streak, count_streaks, loss, current_streak}
use signalsync_be.Streaks.Longest.{longest, count_streaks-longest}
use signalsync_be.Streaks.Current.{running, current_streak-running}

abbrev profits : List ℤ
profits = pos 3 ∷ pos 1 ∷ pos 0 ∷ pos 5 ∷ negsuc 1 ∷ negsuc 0 ∷ []

two_losses : current_streak profits ≡ (loss, 2)
unfolding current_streak
two_losses = refl

two_wins : (count_streaks profits no_streak).max_win ≡ 2
unfolding count_streaks
two_wins = refl

count_streaks-longest_example :
    ((count_streaks profits no_streak).max_win ≡ longest is_win profits)
    × ((count_streaks profits no_streak).max_loss ≡ longest is_loss profits)
count_streaks-longest_example = count_streaks-longest profits

current_streak-running_example : current_streak profits ≡ running (count_streaks profits no_streak)
current_streak-running_example = current_streak-running profits
