-- ===== src/Kernel/Workflow/Buttons.antt =====
-- The buttons against the judge (frust-kernel/kernel/src/workflow.rs).
use frust.Prelude.{
  ◌≡◌, refl, sym, ◌∙◌, inl, inr, Bool, true, false, ◌&&◌, none, some, arith, Bool-cases,
  Option-cases, is_empty, In,
}
use frust.Prelude.Text.{Text, text_eq, text_eq_refl}
use frust.Prelude.Result.{ok}
use frust.Prelude.Search.{
  In-filter, filter-In, find-some, In-find, find-is_empty, filter-is_empty, true_not_false,
}
use frust.Kernel.Workflow.{
  StateDef, TransitionDef, WorkflowDef, Judged, state, available, by_action, from_here, permitted,
  is_none, judge_target, judge,
}

-- Every transition of `w` leads to a state that `w` declares, which installing an app enforces.
abbrev pub AreTargetsDeclared : WorkflowDef → Type 0
AreTargetsDeclared w = (t : TransitionDef) → In t w.transitions → is_none (state w t.to) ≡ false

and-split : (a b : Bool) → (a && b) ≡ true → (a ≡ true) × (b ≡ true)
and-split true b h = (refl, h)
and-split false b h = cc

-- What a rendered button says of its transition.
available-offered :
    (w : WorkflowDef) (current role : Text) (t : TransitionDef)
    → In t (available w current role)
    → In t w.transitions × (text_eq t.from current ≡ true) × (text_eq t.role role ≡ true)
unfolding available
available-offered w current role t h =
    let r =
      In-filter (λ (x : TransitionDef). text_eq x.from current && text_eq x.role role) t
        w.transitions h in
    let both = and-split (text_eq t.from current) (text_eq t.role role) r.1 in (r.0, both.0, both.1)

available-from_here :
    (w : WorkflowDef) (current role : Text) (t : TransitionDef)
    → In t (available w current role)
    → In t (from_here w current t.action)
available-from_here w current role t h =
    let r = available-offered w current role t h in
    filter-In (λ (x : TransitionDef). text_eq x.from current) t (by_action w t.action)
      (filter-In (λ (x : TransitionDef). text_eq x.action t.action) t w.transitions r.0
        (text_eq_refl t.action))
      r.1

judge_found :
    (w : WorkflowDef) (current action role : Text) (t : TransitionDef)
    → is_none (state w current) ≡ false
    → permitted w current action role ≡ some t
    → judge w current action role ≡ judge_target w current action t
unfolding judge
judge_found w current action role t here found =
    let here' =
      find-is_empty (λ (x : TransitionDef). text_eq x.role role) t (from_here w current action)
        found in
    let some' =
      filter-is_empty (λ (x : TransitionDef). text_eq x.from current) (by_action w action) here' in
    rw (here, some', here', found) refl

judge_target-ok :
    (w : WorkflowDef) (current action : Text) (t : TransitionDef)
    → is_none (state w t.to) ≡ false
    → (j : Judged) × (judge_target w current action t ≡ ok j)
judge_target-ok w current action t h = elim (Option-cases (state w t.to)) [
  | inl e ↦ absurd (true_not_false (rw e at h))
  | inr e ↦ (
    record { from = current; to = t.to; action = action; docstatus = e.0.docstatus },
    rw (judge_target, e.1) refl,
  )
]

-- The transition that the judge takes is one of the workflow, and its button is offered.
permitted-In :
    (w : WorkflowDef) (current action role : Text) (t : TransitionDef)
    → permitted w current action role ≡ some t
    → In t w.transitions × In t (available w current role) × (text_eq t.action action ≡ true)
unfolding available
permitted-In w current action role t h =
    let a =
      find-some (λ (x : TransitionDef). text_eq x.role role) t (from_here w current action) h in
    let b = In-filter (λ (x : TransitionDef). text_eq x.from current) t (by_action w action) a.0 in
    let c = In-filter (λ (x : TransitionDef). text_eq x.action action) t w.transitions b.0 in
    (
      c.0,
      filter-In (λ (x : TransitionDef). text_eq x.from current && text_eq x.role role) t
          w.transitions c.0 (rw (b.1, a.1) refl),
      c.1,
    )

-- A transition whose button is offered from a declared state of a workflow that declares its
-- targets is judged allowed: the judge returns a write.
pub available-judge :
    (w : WorkflowDef) (current role : Text) (t : TransitionDef)
    → AreTargetsDeclared w
    → is_none (state w current) ≡ false
    → In t (available w current role)
    → (j : Judged) × (judge w current t.action role ≡ ok j)
available-judge w current role t targets here h =
    let r = available-offered w current role t h in
    let found =
      In-find (λ (x : TransitionDef). text_eq x.role role) t (from_here w current t.action)
        (available-from_here w current role t h) r.2 in
    let good =
      judge_target-ok w current t.action found.0
        (targets found.0 (permitted-In w current t.action role found.0 found.1).0) in
    (good.0, judge_found w current t.action role found.0 here found.1 ∙ good.1)

judge_denied :
    (w : WorkflowDef) (current action role : Text) (j : Judged)
    → permitted w current action role ≡ none
    → ¬ (judge w current action role ≡ ok j)
unfolding judge
judge_denied w current action role j e h = ground (
  arith,
  Bool-cases (is_none (state w current)),
  Bool-cases (is_empty (by_action w action)),
  Bool-cases (is_empty (from_here w current action)),
)

judge-state :
    (w : WorkflowDef) (current action role : Text) (j : Judged)
    → judge w current action role ≡ ok j
    → is_none (state w current) ≡ false
unfolding judge
judge-state w current action role j h = ground (arith, Bool-cases (is_none (state w current)))

judge-ok :
    (w : WorkflowDef) (current action role : Text) (j : Judged)
    → judge w current action role ≡ ok j
    → (t : TransitionDef) × (permitted w current action role ≡ some t)
      × (judge_target w current action t ≡ ok j)
judge-ok w current action role j h = elim (Option-cases (permitted w current action role)) [
  | inl e ↦ absurd (judge_denied w current action role j e h)
  | inr e ↦ (
    e.0,
    e.1,
    sym (judge_found w current action role e.0 (judge-state w current action role j h) e.1) ∙ h,
  )
]

judge_target-state :
    (w : WorkflowDef) (current action : Text) (t : TransitionDef) (j : Judged)
    → judge_target w current action t ≡ ok j
    → (j.from ≡ current)
      × (j.to ≡ t.to)
      × (j.action ≡ action)
      × ((s : StateDef) × (state w t.to ≡ some s) × (j.docstatus ≡ s.docstatus))
judge_target-state w current action t j h = elim (Option-cases (state w t.to)) [
  | inl e ↦ ground (arith, e)
  | inr e ↦ ground (arith, e)
]

-- A write that the judge returns starts at the current state under the action that was asked for,
-- its button is offered to the role, and it leads to a state that the workflow declares, with the
-- document status of that state.
pub judge-available :
    (w : WorkflowDef) (current action role : Text) (j : Judged)
    → judge w current action role ≡ ok j
    → (j.from ≡ current)
      × (j.action ≡ action)
      × ((t : TransitionDef) × In t (available w current role)
          × (text_eq t.action action ≡ true)
          × (j.to ≡ t.to))
      × ((s : StateDef) × (state w j.to ≡ some s) × (j.docstatus ≡ s.docstatus))
judge-available w current action role j h =
    let r = judge-ok w current action role j h in
    let p = permitted-In w current action role r.0 r.1 in
    let s = judge_target-state w current action r.0 j r.2 in
    (s.0, s.2, (r.0, p.1, p.2, s.1), (s.3.0, rw s.1 s.3.1, s.3.2))
