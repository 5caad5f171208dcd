-- ===== src/Kernel/Broker/Transition.antt =====
-- Workflow transitions and deletions through the broker (frust-kernel/kernel/src/broker.rs,
-- `db_transition`).
use frust.Prelude.{
  In, sym, true, ℕ, ◌≡◌, refl, ap, ◌∙◌, subst, false, Option, none, some, List, [], ◌∷◌, ◌++◌,
}
use frust.Prelude.Text.{Text, codes, text_eq}
use frust.Prelude.Result.{Result, ok, err, ◌>>=◌, bind-ok, ok_injective}
use frust.Kernel.Contract.{int, text, record_id, field, eq, Filter, cmp}
use frust.Kernel.Hooks.{HookChain}
use frust.Kernel.Workflow.Buttons.{judge-available}
use frust.Kernel.Workflow.{
  StateDef, TransitionDef, state, available, WorkflowDef, Judged, Denial, judge, state_or_initial,
}
use frust.Kernel.Broker.{
  Json, json_string, Doc, Row, DocTypeMeta, update, BrokerError, unknown_doctype, workflow_denied,
  lookup,
}
use frust.Kernel.Broker.Write.{Dispatch, Trigger, db_write_inner}
use frust.Kernel.Broker.Read.{ReadOpts, db_read_inner}
use frust.Kernel.Broker.Consent.{step-ok}

abbrev pub state_field : Text
state_field = codes "workflow_state"

-- `v.as_str()`
abbrev pub as_str : Option Json → Option Text
as_str (some (json_string s)) = some s
as_str _ = none

abbrev pub by_id : Text → Text → Filter
by_id doctype key = cmp (field (codes "id") ∷ []) eq (record_id (doctype ++ b':' ∷ key))

abbrev pub no_opts : ReadOpts
no_opts = record { order_by = none; limit = none; start = none }

-- What a judged transition writes
abbrev pub transition_doc : Judged → Doc
transition_doc j = (state_field, text j.to) ∷ (codes "docstatus", int false j.docstatus) ∷ []

abbrev pub judged_from : WorkflowDef → Row → Text → Text → Result BrokerError Judged
judged_from w row action role =
    elim (judge w (state_or_initial w (as_str (lookup state_field row))) action role) [
      | err _ ↦ err workflow_denied
      | ok j ↦ ok j
    ]

abbrev pub first_row : List Row → Result BrokerError Row
first_row [] = err unknown_doctype
first_row (row ∷ _) = ok row

abbrev pub managed : Option WorkflowDef → Result BrokerError WorkflowDef
managed none = err workflow_denied
managed (some w) = ok w

-- A judgement was made of the first row.
first_judged :
    (w : WorkflowDef) (role action : Text) (rows : List Row) {j : Judged}
    → (first_row rows >>= λ row. judged_from w row action role) ≡ ok j
    → (row : Row) × (rest : List Row) × (rows ≡ row ∷ rest)
      × (judge w (state_or_initial w (as_str (lookup state_field row))) action role ≡ ok j)
first_judged w role action [] {j} h = absurd (refused unknown_doctype h)
  where
    refused : (e : BrokerError) → ¬ (◌≡◌ {A = Result BrokerError Judged} (err e) (ok j))
    refused e k = cc
first_judged w role action (row ∷ rows) {j} h = (
  row,
  rows,
  refl,
  judged (judge w (state_or_initial w (as_str (lookup state_field row))) action role) h,
)
  where
    refused : (e : BrokerError) → ¬ (◌≡◌ {A = Result BrokerError Judged} (err e) (ok j))
    refused e k = cc

    judged :
        (r : Result Denial Judged)
        → ◌≡◌ {A = Result BrokerError Judged}
            (elim r [ err _ ↦ err workflow_denied | ok j ↦ ok j ])
            (ok j)
        → r ≡ ok j
    judged (err d) k = absurd (refused workflow_denied k)
    judged (ok x) k = ap ok (ok_injective k)

-- What the role is offered in the state `current`: a transition of the workflow that is listed for the
-- state and the role, has the action, and leads to a declared state
abbrev pub IsOffered : Text → WorkflowDef → Text → Text → TransitionDef → StateDef → Type 0
IsOffered role w current action t d =
    In t (available w current role) × (text_eq t.action action ≡ true) × (state w t.to ≡ some d)

-- The database under the caller's session, for reads and for writes
module _ {S : Type 0} (read_as : Text → S → S × Result BrokerError (List Row))
    (write_as : Text → S → S × Result BrokerError (Option Row)) (show_float : ℕ → Text)
    (timeout : Text) (hooks : Dispatch) (meta : DocTypeMeta) (role : Text) where
  unfoldable pub db_transition :
      Option WorkflowDef
      → HookChain
      → Text
      → Text
      → S
      → S × Result BrokerError (Judged × (Row × List Trigger))
  db_transition workflow chain key action s = elim (managed workflow) [
    | err e ↦ (s, err e)
    | ok w ↦
        let (s', read) =
          db_read_inner read_as show_float timeout meta role (some (by_id meta.name key)) [] no_opts
            s in
        elim (read >>= λ rows. first_row rows >>= λ row. judged_from w row action role) [
          | err e ↦ (s', err e)
          | ok j ↦
              let (s'', out) =
                db_write_inner write_as show_float hooks meta chain update (some key)
                  (transition_doc j) s' in
              (s'', (out >>= λ stored. ok (j, stored)))
        ]
  ]

  -- A transition that succeeds was judged from the state that the caller's own read of the row shows,
  -- or from the initial state where that read shows none (also if the role may not read the state),
  -- and is the ordinary update of the state and the docstatus that the judgement gave, over the
  -- store which that read left.
  db_transition-judged :
      (w : WorkflowDef) (chain : HookChain) (key action : Text) (s : S) {s' : S} {j : Judged}
      {stored : Row} {ts : List Trigger}
      → db_transition (some w) chain key action s ≡ (s', ok (j, (stored, ts)))
      → (row : Row) × (rows : List Row) × (t : S) × (db_read_inner read_as show_float timeout meta
            role
            (some (by_id meta.name key))
            []
            no_opts
            s
          ≡ (t, ok (row ∷ rows)))
        × (judge w (state_or_initial w (as_str (lookup state_field row))) action role ≡ ok j)
        × (db_write_inner write_as show_float hooks meta chain update
              (some key)
              (transition_doc j)
              t
            ≡ (s', ok (stored, ts)))
  unfolding db_transition
  db_transition-judged w chain key action s {s'} {stored = stored} {ts = ts} h =
      let source =
        db_read_inner read_as show_float timeout meta role (some (by_id meta.name key)) [] no_opts
          s in
      let (j, e, h1) =
        step-ok (source.1 >>= λ rows. first_row rows >>= λ row. judged_from w row action role)
          source.0 _ h in
      let (rows, r, k) = bind-ok source.1 _ e in
      let (first, rest, at, judged) = first_judged w role action rows k in
      let written =
        db_write_inner write_as show_float hooks meta chain update (some key) (transition_doc j)
          source.0 in
      let (kept, v, u) = bind-ok written.1 _ (ap (λ x. x.1) h1) in
      let same = ok_injective u in
      (
        first,
        rest,
        source.0,
        ap (λ x. (source.0, x)) (r ∙ ap ok at),
        judged ∙ ap (λ x. ok x.0) same,
        subst
            (λ i.
              db_write_inner write_as show_float hooks meta chain update (some key)
                (transition_doc i) source.0
              ≡ (s', ok (stored, ts)))
            (ap (λ x. x.0) same)
            (ap (λ x. (x, written.1)) (ap (λ x. x.0) h1)
              ∙ ap (λ x. (s', x)) (v ∙ ap (λ x. ok x.1) same)),
      )

  -- A transition that succeeds is one that the workflow lists for the role in the state that its own
  -- read of the row shows (the initial state where the read shows none), has the action that was
  -- asked for, and leads to a declared state; what it writes is that state with the docstatus that
  -- the workflow declares for it, as an ordinary update after the read.
  pub db_transition-available :
      (w : WorkflowDef) (chain : HookChain) (key action : Text) (s : S) {s' : S} {j : Judged}
      {stored : Row} {ts : List Trigger}
      → db_transition (some w) chain key action s ≡ (s', ok (j, (stored, ts)))
      → (row : Row) × (rows : List Row) × (u : S) × (t : TransitionDef) × (d : StateDef)
        × (db_read_inner read_as show_float timeout meta role
              (some (by_id meta.name key))
              []
              no_opts
              s
            ≡ (u, ok (row ∷ rows)))
        × IsOffered role w (state_or_initial w (as_str (lookup state_field row))) action t d
        × (db_write_inner write_as show_float hooks meta chain update
              (some key)
              ((state_field, text t.to) ∷ (codes "docstatus", int false d.docstatus) ∷ [])
              u
            ≡ (s', ok (stored, ts)))
  db_transition-available w chain key action s {s'} {j} {stored} {ts} h =
      let (row, rows, u, read, judged, written) = db_transition-judged w chain key action s h in
      let current = state_or_initial w (as_str (lookup state_field row)) in
      let (same_from, same_action, (t, listed, acts, goes), (d, declared, status)) =
        judge-available w current action role j judged in
      (
        row,
        rows,
        u,
        t,
        d,
        read,
        (listed, acts, ap (state w) (sym goes) ∙ declared),
        subst
            (λ (x : Text × ℕ).
              db_write_inner write_as show_float hooks meta chain update (some key)
                ((state_field, text x.0) ∷ (codes "docstatus", int false x.1) ∷ []) u
              ≡ (s', ok (stored, ts)))
            (ap (λ z. (z, j.docstatus)) goes ∙ ap (λ z. (t.to, z)) status) written,
      )
