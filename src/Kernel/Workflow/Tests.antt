-- ===== src/Kernel/Workflow/Tests.antt =====
-- Tests of the workflow engine (frust-kernel/kernel/src/workflow.rs): a leave request that a manager
-- approves.
use frust.Prelude.{◌≡◌, refl, inl, inr, false, [], ◌∷◌, In}
use frust.Prelude.Text.{codes, text_eq}
use frust.Prelude.Result.{ok}
use frust.Kernel.Workflow.{
  StateDef, TransitionDef, WorkflowDef, Judged, state, available, is_none, judge,
}
use frust.Kernel.Workflow.Buttons.{AreTargetsDeclared, available-judge}

abbrev approve : TransitionDef
approve = record {
  from = codes "Draft";
  to = codes "Approved";
  role = codes "manager";
  action = codes "Approve";
}

abbrev approved : StateDef
approved = record { name = codes "Approved"; docstatus = 1 }

abbrev leave : WorkflowDef
leave = record {
  name = codes "leave";
  doctype = codes "request";
  states = record { name = codes "Draft"; docstatus = 0 } ∷ approved ∷ [];
  transitions = approve ∷ [];
  state_rules = [];
}

abbrev judged : Judged
judged = record {
  from = codes "Draft";
  to = codes "Approved";
  action = codes "Approve";
  docstatus = 1;
}

approved-declared : is_none (state leave (codes "Approved")) ≡ false
unfolding state text_eq
approved-declared = refl

draft-declared : is_none (state leave (codes "Draft")) ≡ false
unfolding state text_eq
draft-declared = refl

leave-AreTargetsDeclared : AreTargetsDeclared leave
leave-AreTargetsDeclared t (inl e) = rw e approved-declared
leave-AreTargetsDeclared t (inr i) = absurd i

approve-button : In approve (available leave (codes "Draft") (codes "manager"))
unfolding available text_eq
approve-button = inl refl

available-judge_example :
    (j : Judged) × (judge leave (codes "Draft") (codes "Approve") (codes "manager") ≡ ok j)
available-judge_example =
    available-judge leave (codes "Draft") (codes "manager") approve leave-AreTargetsDeclared
      draft-declared approve-button

draft-judged : judge leave (codes "Draft") (codes "Approve") (codes "manager") ≡ ok judged
unfolding judge state text_eq
draft-judged = refl
