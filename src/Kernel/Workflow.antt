-- ===== src/Kernel/Workflow.antt =====
-- The workflow engine: the judgement of a transition and the buttons that a user is offered
-- (frust-kernel/kernel/src/workflow.rs). A refusal keeps what its message prints.
pub mod Buttons
mod Tests
use frust.Prelude.{
  ℕ, zero, suc, ◌+◌, ◌-◌, ◌*◌, ◌/◌, ◌%◌, ◌^◌, ◌≤◌, ◌<◌, min, max, compare, Ordering, ◌≡◌, refl, sym,
  ap, ◌∙◌, subst, ◌≢◌, ◌↔◌, ◌⊎◌, inl, inr, Bool, true, false, not, ◌&&◌, ◌||◌, Option, none, some,
  List, [], ◌∷◌, ◌++◌, map, append-nil, append_assoc, arith, ltb, leb, ◌==◌, if◌then◌else◌, ==_iff,
  ltb→lt, leb→le, Bool-cases, Option-cases, bool_eq, length, take, drop, get_elem?, any, filter,
  find, is_empty, length-append, All, All-append, All-map, In, In-append_left, In-append_right,
  In-append,
}
use frust.Prelude.Text.{
  Text, codes, text_eq, text_eq_sound, text_eq_refl, text_eq_iff, text_ltb, text_ltb_irrefl,
  text_ltb_trans, text_ltb_total, contains, contains-In, In-contains,
}
use frust.Prelude.Result.{Result, ok, err}

pub record StateDef : Type 0 where
  pub name : Text
  pub docstatus : ℕ

pub record TransitionDef : Type 0 where
  pub from : Text
  pub to : Text
  pub role : Text
  pub action : Text

pub record StateRule : Type 0 where
  pub state : Text
  pub field : Text
  pub read_only : Bool
  pub required : Bool

pub record WorkflowDef : Type 0 where
  pub name : Text
  pub doctype : Text
  pub states : List StateDef
  pub transitions : List TransitionDef
  pub state_rules : List StateRule

pub record Judged : Type 0 where
  pub from : Text
  pub to : Text
  pub action : Text
  pub docstatus : ℕ

-- The codes of `WorkflowDenied`; `unknown_target` is the second use of `UNKNOWN_STATE`.
pub data Denial : Type 0 where
  unknown_state unknown_action wrong_state unknown_target : Denial
  role_denied : List Text → Denial

-- `WorkflowDef::initial_state`
unfoldable pub initial_state : WorkflowDef → Text
initial_state w = elim w.states [ [] ↦ codes "Draft" | s ∷ ss ↦ s.name ]

-- `WorkflowDef::state`
unfoldable pub state : WorkflowDef → Text → Option StateDef
state w name = find (λ (s : StateDef). text_eq s.name name) w.states

-- `WorkflowDef::state_or_initial`
unfoldable pub state_or_initial : WorkflowDef → Option Text → Text
unfolding initial_state
state_or_initial w none = initial_state w
state_or_initial w (some s) = if not (is_empty s) then s else initial_state w

-- `WorkflowDef::available`
unfoldable pub available : WorkflowDef → Text → Text → List TransitionDef
available w current role =
    filter (λ (t : TransitionDef). text_eq t.from current && text_eq t.role role) w.transitions

abbrev pub by_action : WorkflowDef → Text → List TransitionDef
by_action w action = filter (λ (t : TransitionDef). text_eq t.action action) w.transitions

abbrev pub from_here : WorkflowDef → Text → Text → List TransitionDef
from_here w current action =
    filter (λ (t : TransitionDef). text_eq t.from current) (by_action w action)

-- `from_here.iter().find(|t| t.role == role)`
abbrev pub permitted : WorkflowDef → Text → Text → Text → Option TransitionDef
permitted w current action role =
    find (λ (t : TransitionDef). text_eq t.role role) (from_here w current action)

abbrev pub is_none {ℓ} : {A : Type ℓ} → Option A → Bool
is_none none = true
is_none (some a) = false

-- The write that a permitted transition asks for.
abbrev pub judge_target : WorkflowDef → Text → Text → TransitionDef → Result Denial Judged
judge_target w current action t = elim (state w t.to) [
  | none ↦ err unknown_target
  | some to ↦ ok (record { from = current; to = t.to; action = action; docstatus = to.docstatus })
]

-- `WorkflowDef::judge`
unfoldable pub judge : WorkflowDef → Text → Text → Text → Result Denial Judged
judge w current action role =
    if is_none (state w current)
    then err unknown_state
    else if is_empty (by_action w action)
    then err unknown_action
    else if is_empty (from_here w current action)
    then err wrong_state
    else elim (permitted w current action role) [
      | none ↦ err (role_denied (map (λ (t : TransitionDef). t.role) (from_here w current action)))
      | some t ↦ judge_target w current action t
    ]

-- A compiled rule: the field, whether it is made read-only or required, and the state that does.
pub data FieldRule : Type 0 where
  read_only_when required_when : Text → Text → FieldRule

abbrev rules_of : StateRule → List FieldRule
rules_of r =
    (if r.read_only then read_only_when r.field r.state ∷ [] else [])
    ++ (if r.required then required_when r.field r.state ∷ [] else [])

abbrev concerns : Option Text → StateRule → Bool
concerns none r = true
concerns (some s) r = text_eq r.state s

unfoldable pub compile_rules : Option Text → List StateRule → List FieldRule
compile_rules interest [] = []
compile_rules interest (r ∷ rs) =
    let rest = compile_rules interest rs in if concerns interest r then rules_of r ++ rest else rest

-- `WorkflowDef::field_rules`
unfoldable pub field_rules : WorkflowDef → Option Text → List FieldRule
unfolding compile_rules
field_rules w interest = compile_rules interest w.state_rules
