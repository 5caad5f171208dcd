-- ===== src/Kernel/Broker/Roles.antt =====
-- Reads and transitions by roles that do not see every field.
use frust.Prelude.{
  ℕ, zero, suc, ◌+◌, ◌-◌, ◌*◌, ◌/◌, ◌%◌, ◌^◌, ◌≤◌, ◌<◌, min, max, compare, Ordering, ◌≡◌, refl, sym,
  ap, ◌∙◌, subst, ◌≢◌, ◌↔◌, ◌⊎◌, inl, inr, Bool, true, false, not, ◌&&◌, ◌||◌, Option, none, some,
  List, [], ◌∷◌, ◌++◌, map, append-nil, append_assoc, arith, ltb, leb, ◌==◌, if◌then◌else◌, ==_iff,
  ltb→lt, leb→le, Bool-cases, Option-cases, bool_eq, length, take, drop, get_elem?, any, filter,
  find, is_empty, length-append, All, All-append, All-map, In, In-append_left, In-append_right,
  In-append,
}
use frust.Prelude.Text.{Text, codes, text_eq}
use frust.Prelude.Result.{Result, ok, err}
use frust.Kernel.Contract.{text, int, PathSegment, field, link_hop}
use frust.Kernel.Hooks.{HookChain}
use frust.Kernel.Workflow.{
  StateDef, WorkflowDef, StateDef, TransitionDef, Judged, judge, state_or_initial,
}
use frust.Kernel.Broker.{
  Json, json_whole, json_string, Doc, Row, FieldMeta, DocTypeMeta, update, BrokerError,
  field_not_readable, lookup,
}
use frust.Kernel.Broker.Write.{Dispatch, updated, db_write_inner}
use frust.Kernel.Broker.Read.{is_readable, db_read_inner, sum, aggregate_statement}
use frust.Kernel.Broker.Hidden.{db_read_inner-readable}
use frust.Kernel.Broker.Transition.{
  IsOffered, state_field, as_str, by_id, no_opts, db_transition, db_transition-available,
}

abbrev show_zero : ℕ → Text
show_zero x = codes "0"

abbrev timeout : Text
timeout = codes "5s"

abbrev clerk : Text
clerk = codes "clerk"

abbrev staff : DocTypeMeta
staff = record {
  name = codes "staff";
  fields =
      record { fieldname = codes "dept"; fieldtype = codes "Data"; perm_role = none }
      ∷ record {
        fieldname = codes "salary";
        fieldtype = codes "Currency";
        perm_role = some (codes "hr");
      }
      ∷ [];
}

abbrev answer : Row
answer =
    (codes "id", json_string (codes "staff:1"))
    ∷ (codes "dept", json_string (codes "it"))
    ∷ (codes "salary", json_string (codes "900"))
    ∷ []

abbrev read_as : Text → List Text → List Text × Result BrokerError (List Row)
read_as q log = (log ++ q ∷ [], ok (answer ∷ []))

abbrev seen : Row
seen = (codes "id", json_string (codes "staff:1")) ∷ (codes "dept", json_string (codes "it")) ∷ []

read_by_clerk :
    db_read_inner read_as show_zero timeout staff clerk none [] no_opts []
    ≡ (codes "SELECT * FROM staff TIMEOUT 5s;" ∷ [], ok (seen ∷ []))
unfolding db_read_inner text_eq
read_by_clerk = refl

-- The projection is refused before a statement is sent.
salary_refused :
    db_read_inner read_as show_zero timeout staff clerk none
      ((field (codes "salary") ∷ []) ∷ [])
      no_opts
      []
    ≡ ([], err field_not_readable)
unfolding db_read_inner text_eq
salary_refused = refl

-- A path that names the same field as a link is not looked up.
salary_summed :
    aggregate_statement show_zero timeout staff clerk none []
      ((sum, link_hop (codes "salary") ∷ []) ∷ [])
    ≡ ok (codes "SELECT math::sum(salary) AS m0 FROM staff GROUP ALL TIMEOUT 5s;")
unfolding aggregate_statement frust.Kernel.Surql.render_path frust.Prelude.Chars.join
    frust.Prelude.Digits.digits
salary_summed = refl

db_read_inner-readable_example :
    ((root : Text) (path : List PathSegment)
      → In (field root ∷ path) []
      → is_readable staff clerk root ≡ true)
    × ((k : Text)
        → is_readable staff clerk k ≡ false
        → All (λ row. lookup k row ≡ none) (seen ∷ []))
db_read_inner-readable_example =
    db_read_inner-readable read_as show_zero timeout staff clerk none [] no_opts [] read_by_clerk

abbrev leave : DocTypeMeta
leave = record {
  name = codes "leave";
  fields =
      record { fieldname = state_field; fieldtype = codes "Data"; perm_role = some (codes "hr") }
      ∷ [];
}

abbrev approval : WorkflowDef
approval = record {
  name = codes "approval";
  doctype = codes "leave";
  states =
      record { name = codes "Draft"; docstatus = 0 }
      ∷ record { name = codes "Done"; docstatus = 1 }
      ∷ [];
  transitions =
      record {
        from = codes "Draft";
        to = codes "Done";
        role = codes "hr";
        action = codes "Approve";
      }
      ∷ record { from = codes "Draft"; to = codes "Done"; role = clerk; action = codes "Approve" }
      ∷ [];
  state_rules = [];
}

abbrev stored_leave : Text → Row
stored_leave s =
    (codes "id", json_string (codes "leave:1"))
    ∷ (state_field, json_string s)
    ∷ (codes "docstatus", json_whole false 0)
    ∷ []

abbrev echo : Dispatch
echo = record { fire_for = λ c d. ok d; validate_for = λ d. ok d }

abbrev rows_of : Text → Text → ℕ → ℕ × Result BrokerError (List Row)
rows_of s q u = (u, ok (stored_leave s ∷ []))

abbrev row_of : Text → Text → ℕ → ℕ × Result BrokerError (Option Row)
row_of s q u = (u, ok (some (stored_leave s)))

abbrev approved : Judged
approved = record {
  from = codes "Draft";
  to = codes "Done";
  action = codes "Approve";
  docstatus = 1;
}

transition_by_hr :
    db_transition
      (rows_of (codes "Draft"))
      (row_of (codes "Draft"))
      show_zero
      timeout
      echo
      leave
      (codes "hr")
      (some approval)
      []
      (codes "1")
      (codes "Approve")
      0
    ≡ (0, ok (approved, (stored_leave (codes "Draft"), updated ∷ [])))
unfolding db_transition db_read_inner frust.Kernel.Surql.render_filter judge
    frust.Kernel.Workflow.state text_eq state_or_initial db_write_inner frust.Kernel.Hooks.push_hook
    frust.Kernel.Broker.json_to_value frust.Kernel.Broker.with_id frust.Kernel.Broker.merged
    frust.Kernel.Broker.persisted
transition_by_hr = refl

-- To a role that may not read the state, the document is judged as if it had none.
hidden_state :
    db_transition
      (rows_of (codes "Done"))
      (row_of (codes "Done"))
      show_zero
      timeout
      echo
      leave
      clerk
      (some approval)
      []
      (codes "1")
      (codes "Approve")
      0
    ≡ (0, ok (approved, (stored_leave (codes "Done"), updated ∷ [])))
unfolding db_transition db_read_inner frust.Kernel.Surql.render_filter judge
    frust.Kernel.Workflow.state text_eq state_or_initial db_write_inner frust.Kernel.Hooks.push_hook
    frust.Kernel.Broker.json_to_value frust.Kernel.Broker.with_id frust.Kernel.Broker.merged
    frust.Kernel.Broker.persisted
hidden_state = refl

db_transition-available_example :
    (row : Row) × (rows : List Row) × (u : ℕ) × (tr : TransitionDef) × (d : StateDef)
    × (db_read_inner
          (rows_of (codes "Draft"))
          show_zero
          timeout
          leave
          (codes "hr")
          (some (by_id (codes "leave") (codes "1")))
          []
          no_opts
          0
        ≡ (u, ok (row ∷ rows)))
    × IsOffered
        (codes "hr")
        approval
        (state_or_initial approval (as_str (lookup state_field row)))
        (codes "Approve")
        tr
        d
    × (db_write_inner
          (row_of (codes "Draft"))
          show_zero
          echo
          leave
          []
          update
          (some (codes "1"))
          ((state_field, text tr.to) ∷ (codes "docstatus", int false d.docstatus) ∷ [])
          u
        ≡ (0, ok (stored_leave (codes "Draft"), updated ∷ [])))
db_transition-available_example =
    db_transition-available (rows_of (codes "Draft")) (row_of (codes "Draft")) show_zero timeout
      echo leave (codes "hr") approval [] (codes "1") (codes "Approve") 0 transition_by_hr
