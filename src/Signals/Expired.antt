-- ===== src/Signals/Expired.antt =====
-- What the expiry of threads does (src/app/domains/copy_trading/workers.py).
use signalsync_be.Base.{ℕ, ◌≡◌, refl, inl, inr, false, List, [], ◌∷◌, All, Bool-cases}
use signalsync_be.Signals.Lifecycle.{
  RouteSignalAssembly, SignalConversation, SignalTables, is_overdue, expire_overdue, has_overdue,
  end_conversations, count_overdue, expire_signal_threads, mark_generation_expired,
  required_details_timeout,
}
use signalsync_be.Signals.Overdue.{
  IsExpired, IsEnded, expire_overdue-IsExpired, end_conversations-IsEnded,
}

abbrev IsTimely : ℕ → List RouteSignalAssembly → Type 0
IsTimely now assemblies = All (λ a. is_overdue now a ≡ false) assemblies

expire_overdue-IsTimely :
    (now : ℕ) (assemblies : List RouteSignalAssembly) → IsTimely now (expire_overdue now assemblies)
unfolding expire_overdue
expire_overdue-IsTimely now [] = tt
expire_overdue-IsTimely now (a ∷ assemblies) = elim (Bool-cases (is_overdue now a)) [
  | inl e ↦ rw e (expired_fine a, expire_overdue-IsTimely now assemblies)
  | inr e ↦ rw e (e, expire_overdue-IsTimely now assemblies)
]
  where
    expired_fine :
        (a : RouteSignalAssembly)
        → is_overdue now (mark_generation_expired a required_details_timeout now) ≡ false
    expired_fine a = refl

module _ (now : ℕ) where
  timely-none :
      (assemblies : List RouteSignalAssembly)
      → IsTimely now assemblies
      → (expire_overdue now assemblies ≡ assemblies)
        × (count_overdue now assemblies ≡ 0)
        × ((id : ℕ) → has_overdue now id assemblies ≡ false)
  unfolding expire_overdue count_overdue
  timely-none [] h = (refl, refl, λ id. refl)
  timely-none (a ∷ assemblies) h =
      let (same, none_counted, none_found) = timely-none assemblies h.1 in
      (rw (h.0, same) refl, rw (h.0) none_counted, λ id. rw (h.0) (none_found id))

  timely-ends_none :
      (before after : List RouteSignalAssembly) (conversations : List SignalConversation)
      → IsTimely now before
      → end_conversations now before after conversations ≡ conversations
  unfolding end_conversations
  timely-ends_none before after [] h = refl
  timely-ends_none before after (c ∷ conversations) h =
      rw ((timely-none before h).2 c.id, timely-ends_none before after conversations h) refl

-- The expiry ends exactly the assemblies that wait for details past their deadline, for want of
-- details and at the time given, and times out exactly the conversations that had one of these and
-- of which no assembly is waiting, ready or executing; a second expiry at the same time finds none
-- and changes nothing.
pub expire_signal_threads-settled :
    (now : ℕ) (tables : SignalTables)
    → let after = (expire_signal_threads now tables).1 in
      IsExpired now tables.assemblies after.assemblies
      × IsEnded now tables.assemblies after.assemblies tables.conversations after.conversations
      × (expire_signal_threads now after ≡ (0, after))
unfolding expire_signal_threads
expire_signal_threads-settled now tables =
    let assemblies = expire_overdue now tables.assemblies in
    let timely = expire_overdue-IsTimely now tables.assemblies in
    let (same, none_counted, _) = timely-none now assemblies timely in
    (
      expire_overdue-IsExpired now tables.assemblies,
      end_conversations-IsEnded now tables.assemblies assemblies tables.conversations,
      rw (same, none_counted) (rw (timely-ends_none now assemblies assemblies _ timely) refl),
    )
