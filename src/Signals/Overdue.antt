-- ===== src/Signals/Overdue.antt =====
-- What the expiry of threads does to each assembly and conversation
-- (src/app/domains/copy_trading/workers.py).
use signalsync_be.Base.{
  ℕ, ◌≤◌, ◌≡◌, ◌≢◌, refl, ◌⊎◌, ◌↔◌, inl, inr, Bool, true, false, not, ◌&&◌, some, List, [], ◌∷◌,
  IsIn, any, ◌==◌, ==_iff, Bool-cases, or_true, arith,
}
use signalsync_be.Signals.Lifecycle.{
  RouteAssemblyState, assembling, ready, executing, completed, expired, skipped, failed, timed_out,
  is_assembling, is_still_active, if_there, RouteSignalAssembly, SignalConversation, is_overdue,
  expire_overdue, has_overdue, has_active, end_conversations, required_details_timeout,
}

-- It waits for details, and its deadline has come.
abbrev pub IsOverdue : ℕ → RouteSignalAssembly → Type 0
IsOverdue now a = (a.state ≡ assembling) × (a.assembly_deadline ≤ now)

is_assembling_iff :
    (state : RouteAssemblyState) → (is_assembling state ≡ true) ↔ (state ≡ assembling)
is_assembling_iff assembling = ((λ h. refl), (λ h. refl))
is_assembling_iff ready = ((λ h. cc), (λ h. cc))
is_assembling_iff executing = ((λ h. cc), (λ h. cc))
is_assembling_iff completed = ((λ h. cc), (λ h. cc))
is_assembling_iff expired = ((λ h. cc), (λ h. cc))
is_assembling_iff skipped = ((λ h. cc), (λ h. cc))
is_assembling_iff failed = ((λ h. cc), (λ h. cc))

both : (x : Bool) {y : Bool} → (x && y) ≡ true → (x ≡ true) × (y ≡ true)
both true h = (refl, h)
both false h = absurd (cc h)

is_overdue_iff : (now : ℕ) (a : RouteSignalAssembly) → (is_overdue now a ≡ true) ↔ IsOverdue now a
unfolding is_overdue
is_overdue_iff now a =
    let state = is_assembling_iff a.state in
    (
      (λ h. (
        state.0 (both (is_assembling a.state) h).0,
        ground (arith, (both (is_assembling a.state) h).1),
      )),
      (λ (waits, due). rw (state.1 waits) (ground (arith, due))),
    )

any_iff :
    {A : Type 0} (test : A → Bool) (xs : List A)
    → (any test xs ≡ true) ↔ ((a : A) × IsIn a xs × (test a ≡ true))
any_iff test [] = ((λ h. cc), (λ (a, m, t). absurd m))
any_iff test (x ∷ xs) =
    let ih = any_iff test xs in
    (
      (λ h. elim (Bool-cases (test x)) [
        | inl e ↦ (x, inl refl, e)
        | inr e ↦ let (a, m, t) = ih.0 (rw e at h) in (a, inr m, t)
      ]),
      (λ (a, m, t). elim m [ inl p ↦ rw (← p) (rw t) | inr q ↦ or_true (test x) (ih.1 (a, q, t)) ]),
    )

-- Each assembly that is overdue has expired for want of details, and the others are as they were.
abbrev pub IsExpired : ℕ → List RouteSignalAssembly → List RouteSignalAssembly → Type 0
IsExpired now [] [] = Unit
IsExpired now (a ∷ before) (b ∷ after) =
    ((IsOverdue now a
        × (b ≡ record a {
          state = expired;
          completed_at = some now;
          terminal_reason = some required_details_timeout;
        }))
      ⊎ ((¬ IsOverdue now a) × (b ≡ a)))
    × IsExpired now before after
IsExpired now _ _ = ⊥

pub expire_overdue-IsExpired :
    (now : ℕ) (assemblies : List RouteSignalAssembly)
    → IsExpired now assemblies (expire_overdue now assemblies)
unfolding expire_overdue
expire_overdue-IsExpired now [] = tt
expire_overdue-IsExpired now (a ∷ assemblies) =
    let rest = expire_overdue-IsExpired now assemblies in
    elim (Bool-cases (is_overdue now a)) [
      | inl e ↦ rw e (inl ((is_overdue_iff now a).0 e, refl), rest)
      | inr e ↦ rw e (inr ((λ due. cc ((is_overdue_iff now a).1 due, e)), refl), rest)
    ]

-- One of its assemblies was overdue, and none of them goes on.
abbrev pub IsOver :
    ℕ → List RouteSignalAssembly → List RouteSignalAssembly → SignalConversation → Type 0
IsOver now before after c =
    ((a : RouteSignalAssembly) × IsIn a before × IsOverdue now a × (a.conversation_id ≡ c.id))
    × ((a : RouteSignalAssembly)
        → IsIn a after
        → a.conversation_id ≡ c.id
        → (a.state ≢ assembling) × (a.state ≢ ready) × (a.state ≢ executing))

-- The conversations that are over time out, with their older thread where it exists, and the others
-- are as they were.
abbrev pub IsEnded :
    ℕ
    → List RouteSignalAssembly
    → List RouteSignalAssembly
    → List SignalConversation
    → List SignalConversation
    → Type 0
IsEnded now before after [] [] = Unit
IsEnded now before after (c ∷ conversations) (d ∷ ended) =
    ((IsOver now before after c
        × (d ≡ record c { state = timed_out; legacy_state = if_there c.legacy_state timed_out }))
      ⊎ ((¬ IsOver now before after c) × (d ≡ c)))
    × IsEnded now before after conversations ended
IsEnded now before after _ _ = ⊥

flip : {x : Bool} → not x ≡ true → x ≡ false
flip {x = true} h = absurd (cc h)
flip {x = false} h = refl

idle_iff :
    (state : RouteAssemblyState)
    → (is_still_active state ≡ false)
      ↔ ((state ≢ assembling) × (state ≢ ready) × (state ≢ executing))
idle_iff assembling = ((λ h. cc), (λ (x, y, z). absurd (x refl)))
idle_iff ready = ((λ h. cc), (λ (x, y, z). absurd (y refl)))
idle_iff executing = ((λ h. cc), (λ (x, y, z). absurd (z refl)))
idle_iff completed = ((λ h. ((λ e. cc e), (λ e. cc e), (λ e. cc e))), (λ h. refl))
idle_iff expired = ((λ h. ((λ e. cc e), (λ e. cc e), (λ e. cc e))), (λ h. refl))
idle_iff skipped = ((λ h. ((λ e. cc e), (λ e. cc e), (λ e. cc e))), (λ h. refl))
idle_iff failed = ((λ h. ((λ e. cc e), (λ e. cc e), (λ e. cc e))), (λ h. refl))

has_overdue_iff :
    (now id : ℕ) (assemblies : List RouteSignalAssembly)
    → (has_overdue now id assemblies ≡ true)
      ↔ ((a : RouteSignalAssembly) × IsIn a assemblies × IsOverdue now a × (a.conversation_id ≡ id))
has_overdue_iff now id assemblies =
    let found = any_iff (λ a. is_overdue now a && a.conversation_id == id) assemblies in
    (
      (λ h.
          let (a, m, t) = found.0 h in
          let (due, own) = both (is_overdue now a) t in
          (a, m, (is_overdue_iff now a).0 due, (==_iff a.conversation_id id).0 own)),
      (λ (a, m, due, own).
          found.1
            (a, m, rw ((is_overdue_iff now a).1 due, (==_iff a.conversation_id id).1 own) refl)),
    )

inactive_iff :
    (id : ℕ) (assemblies : List RouteSignalAssembly)
    → (has_active id assemblies ≡ false) ↔ (
        (a : RouteSignalAssembly)
        → IsIn a assemblies
        → a.conversation_id ≡ id
        → (a.state ≢ assembling) × (a.state ≢ ready) × (a.state ≢ executing))
inactive_iff id assemblies =
    let found = any_iff (λ a. a.conversation_id == id && is_still_active a.state) assemblies in
    (
      (λ h a m own. elim (Bool-cases (is_still_active a.state)) [
        | inr f ↦ (idle_iff a.state).0 f
        | inl t ↦
            let active = found.1 (a, m, rw ((==_iff a.conversation_id id).1 own, t) refl) in
            absurd (cc (active, h))
      ]),
      (λ all. elim (Bool-cases (has_active id assemblies)) [
        | inr f ↦ f
        | inl t ↦
            let (a, m, u) = found.0 t in
            let (own, going) = both (a.conversation_id == id) u in
            let ended = (idle_iff a.state).1 (all a m ((==_iff a.conversation_id id).0 own)) in
            absurd (cc (going, ended))
      ]),
    )

times_out_iff :
    (now : ℕ) (before after : List RouteSignalAssembly) (c : SignalConversation)
    → ((has_overdue now c.id before && not (has_active c.id after)) ≡ true)
      ↔ IsOver now before after c
times_out_iff now before after c =
    let due = has_overdue_iff now c.id before in
    let idle_after = inactive_iff c.id after in
    (
      (λ h.
          let (some_due, none_going) = both (has_overdue now c.id before) h in
          (due.0 some_due, idle_after.0 (flip none_going))),
      (λ (some_due, none_going). rw (due.1 some_due, idle_after.1 none_going) refl),
    )

pub end_conversations-IsEnded :
    (now : ℕ) (before after : List RouteSignalAssembly) (conversations : List SignalConversation)
    → IsEnded now before after conversations (end_conversations now before after conversations)
unfolding end_conversations
end_conversations-IsEnded now before after [] = tt
end_conversations-IsEnded now before after (c ∷ conversations) =
    let rest = end_conversations-IsEnded now before after conversations in
    let over = times_out_iff now before after c in
    elim (Bool-cases (has_overdue now c.id before && not (has_active c.id after))) [
      | inl e ↦ rw e (inl (over.0 e, refl), rest)
      | inr e ↦ rw e (inr ((λ is_over. cc (over.1 is_over, e)), refl), rest)
    ]
