-- ===== src/Assembly/Examples.antt =====
-- Examples for the choice of a conversation (src/app/domains/copy_trading/assembly.py).
use signalsync_be.Base.{◌≡◌, refl, true, false, none, some, [], ◌∷◌, List, IsIn}
use signalsync_be.Base.Text.{
  codes, symbol_chars, is_symbol_char, to_upper, strip, lstrip, is_space, to_lower,
}
use signalsync_be.Engine.{open_market}
use signalsync_be.Assembly.{
  ConversationCandidate, Update, choose_conversation, choose_among, most_recent_first,
  insert_recent, is_eligible, adjacent_opening, incomplete_opening, adjacent_management, edit_match,
  reply_match, matchable, by_content, by_symbol, implicit, exact_match, unresolved_match,
  is_incomplete_opening, normalize_symbol, normalize_direction,
}
use signalsync_be.Assembly.Choice.{Continues, choose_conversation-Continues}

abbrev submitted : ConversationCandidate
submitted = record {
  id = 1;
  reply_root_message_id = none;
  last_message_id = 40;
  symbol = some (codes "XAUUSD");
  direction = some (codes "buy");
  updated_at = 7;
  opening_submitted = true;
  has_active_trade = true;
}

abbrev unfinished : ConversationCandidate
unfinished = record submitted {
  id = 2;
  last_message_id = 50;
  opening_submitted = false;
  has_active_trade = false;
}

abbrev candidates : List ConversationCandidate
candidates = submitted ∷ unfinished ∷ []

abbrev new_opening : Update
new_opening = record {
  reply_to_message_id = none;
  symbol = some (codes "xauusd");
  direction = some (codes "buy");
  action = some open_market;
  message_id = some 60;
  is_edit = false;
}

new_opening_choice : (choose_conversation new_opening candidates).selected ≡ some unfinished
unfolding choose_conversation choose_among most_recent_first insert_recent is_eligible
    adjacent_opening incomplete_opening adjacent_management edit_match reply_match matchable
    by_content by_symbol implicit exact_match unresolved_match is_incomplete_opening
    normalize_symbol normalize_direction symbol_chars is_symbol_char to_upper strip lstrip is_space
    to_lower
new_opening_choice = refl

choose_conversation-Continues_example :
    IsIn unfinished candidates
    × Continues (some open_market) unfinished
    × ((choose_conversation new_opening candidates).ambiguous ≡ false)
choose_conversation-Continues_example =
    choose_conversation-Continues new_opening candidates unfinished new_opening_choice
