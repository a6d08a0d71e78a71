-- ===== src/Assembly/Openings.antt =====
-- A new opening signal does not continue a submitted one (`choose_conversation` of
-- src/app/domains/copy_trading/assembly.py).
use signalsync_be.Base.{◌≡◌, true, false, not, none, some, List, select, IsIn-select, arith}
use signalsync_be.Assembly.{
  ConversationCandidate, Update, most_recent_first, is_eligible, is_opening, matchable,
  normalize_symbol, adjacent_opening, incomplete_opening, adjacent_management, edit_match,
  reply_match, by_content, choose_among, choose_conversation,
}
use signalsync_be.Assembly.Choice.{selected-Picks, by_content-Picks}

module _ (u : Update) where
  -- Without an edit or a reply only the content of an opening signal decides.
  choose_among-opening :
      (cs : List ConversationCandidate)
      → is_opening u.action ≡ true
      → u.is_edit ≡ false
      → u.reply_to_message_id ≡ none
      → choose_among u cs
        ≡ by_content u (normalize_symbol u.symbol) (select (λ c. not c.opening_submitted) cs)
  unfolding choose_among adjacent_opening incomplete_opening adjacent_management edit_match
      reply_match matchable
  choose_among-opening cs o e r = ground arith

  -- An opening signal that is neither an edit nor a reply continues no conversation whose opening is
  -- submitted: it starts a new one, or completes one that still waits for details.
  pub choose_conversation-opening :
      (candidates : List ConversationCandidate) (c : ConversationCandidate)
      → is_opening u.action ≡ true
      → u.is_edit ≡ false
      → u.reply_to_message_id ≡ none
      → (choose_conversation u candidates).selected ≡ some c
      → c.opening_submitted ≡ false
  unfolding choose_conversation
  choose_conversation-opening candidates c o e r h =
      let eligible = select (is_eligible u.action) (most_recent_first candidates) in
      let content = rw (choose_among-opening eligible o e r) at h in
      (selected-Picks (λ d. d.opening_submitted ≡ false) _ c
        (by_content-Picks (λ d. d.opening_submitted ≡ false) u (normalize_symbol u.symbol) _
          (λ d m.
            let open_yet =
              (IsIn-select (λ (x : ConversationCandidate). not x.opening_submitted) eligible m).1 in
            ground arith))
        content).0
