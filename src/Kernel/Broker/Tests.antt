-- ===== src/Kernel/Broker/Tests.antt =====
-- Writes of one invoice, with dispatchers that echo, reject and submit.
use frust.Prelude.{
  ℕ, zero, suc, ◌+◌, ◌-◌, ◌*◌, ◌/◌, ◌%◌, ◌^◌, ◌≤◌, ◌<◌, min, max, compare, Ordering, ◌≡◌, refl, sym,
  ap, ◌∙◌, subst, ◌≢◌, ◌↔◌, ◌⊎◌, inl, inr, Bool, true, false, not, ◌&&◌, ◌||◌, Option, none, some,
  List, [], ◌∷◌, ◌++◌, map, append-nil, append_assoc, arith, ltb, leb, ◌==◌, if◌then◌else◌, ==_iff,
  ltb→lt, leb→le, Bool-cases, Option-cases, bool_eq, length, take, drop, get_elem?, any, filter,
  find, is_empty, length-append, All, All-append, All-map, In, In-append_left, In-append_right,
  In-append,
}
use frust.Prelude.Text.{Text, codes, text_eq}
use frust.Prelude.Result.{Result, ok, err}
use frust.Kernel.Contract.{int, decimal, text}
use frust.Kernel.Hooks.{HookClass, before_insert, validate, on_submit, on_cancel, HookChain}
use frust.Kernel.Surql.{is_ident}
use frust.Kernel.Surql.Closed.{is_numeral}
use frust.Kernel.Broker.{
  Json, json_whole, json_string, Doc, Row, FieldMeta, DocTypeMeta, WriteOp, create, update,
  BrokerError, hook_rejected, permission_denied, same_value, merged, set_entry, with_id, has_key,
  is_declared,
}
use frust.Kernel.Broker.Same.{no_nan}
use frust.Kernel.Broker.Write.{Dispatch, record_name, hooked, statement, db_write_inner}
use frust.Kernel.Broker.Echo.{hooked-echo}
use frust.Kernel.Broker.Statement.{IsStatement, statement-IsStatement}

abbrev show_zero : ℕ → Text
show_zero x = codes "0"

abbrev a_field : Text → Text → FieldMeta
a_field name type = record { fieldname = name; fieldtype = type; perm_role = none }

abbrev invoice : DocTypeMeta
invoice = record {
  name = codes "inv";
  fields = a_field (codes "total") (codes "Currency") ∷ a_field (codes "note") (codes "Data") ∷ [];
}

abbrev echo : Dispatch
echo = record { fire_for = λ c d. ok d; validate_for = λ d. ok d }

abbrev no_submit : Dispatch
no_submit = record { fire_for = λ c d. err hook_rejected; validate_for = λ d. ok d }

-- A `validate` hook that submits the document itself
abbrev submits : Dispatch
submits = record {
  fire_for = λ c d. err hook_rejected;
  validate_for = λ d. ok ((codes "docstatus", int false 1) ∷ []);
}

abbrev stored : Row
stored =
    (codes "id", json_string (codes "inv:1"))
    ∷ (codes "total", json_string (codes "5.0"))
    ∷ (codes "docstatus", json_whole false 0)
    ∷ []

abbrev baseline : Doc
baseline = (codes "total", decimal (codes "5.0")) ∷ (codes "docstatus", int false 0) ∷ []

abbrev note : Doc
note = (codes "note", text (codes "it's paid")) ∷ []

-- A store that keeps the statements, and answers every one of them with the row.
abbrev sql_as : Text → List Text → List Text × Result BrokerError (Option Row)
sql_as q log = (log ++ q ∷ [], ok (some stored))

abbrev note_statement : Text
note_statement = codes "UPDATE type::record('inv:1') MERGE { note: 'it\\'s paid' };"

abbrev note_log : List Text
note_log = codes "SELECT * FROM type::record('inv:1');" ∷ note_statement ∷ []

-- The rejected submission sends no statement behind the read.
submit_rejected :
    db_write_inner sql_as show_zero no_submit invoice [] update
      (some (codes "1"))
      ((codes "docstatus", int false 1) ∷ [])
      []
    ≡ (codes "SELECT * FROM type::record('inv:1');" ∷ [], err hook_rejected)
unfolding db_write_inner frust.Kernel.Hooks.push_hook text_eq frust.Kernel.Broker.json_to_value
    with_id merged
submit_rejected = refl

-- A `validate` hook crosses the edge after the edge's own hooks were asked.
submitted_by_validate :
    hooked show_zero submits invoice [] update (codes "1") note baseline
    ≡ ok ((codes "docstatus", int false 1) ∷ [])
unfolding hooked text_eq with_id merged frust.Kernel.Broker.persisted frust.Kernel.Decimal.parse
    frust.Prelude.Chars.trim frust.Prelude.Digits.digits frust.Prelude.Chars.strip_prefix
    frust.Prelude.Chars.split_on frust.Prelude.Digits.value_from frust.Kernel.Decimal.i128_bound
    frust.Kernel.Decimal.cmp
submitted_by_validate = refl

no_row_refused :
    db_write_inner {S = Unit} (λ q s. (s, ok none)) show_zero echo invoice [] create none note tt
    ≡ (tt, err permission_denied)
unfolding db_write_inner frust.Kernel.Hooks.push_hook with_id merged text_eq
    frust.Kernel.Broker.persisted
no_row_refused = refl

-- Texts that are not the same may be the same value.
numeral_texts : same_value show_zero (text (codes "007")) (text (codes "7")) ≡ true
unfolding same_value frust.Kernel.Decimal.parse frust.Prelude.Chars.trim
    frust.Prelude.Chars.strip_prefix frust.Prelude.Chars.split_on frust.Prelude.Digits.value_from
    frust.Kernel.Decimal.i128_bound frust.Kernel.Decimal.cmp
numeral_texts = refl

echoed : hooked show_zero echo invoice [] update (codes "1") note baseline ≡ ok note
unfolding hooked text_eq with_id merged frust.Kernel.Broker.persisted frust.Kernel.Decimal.parse
    frust.Prelude.Chars.trim frust.Prelude.Chars.strip_prefix frust.Prelude.Chars.split_on
    frust.Prelude.Digits.value_from frust.Kernel.Decimal.i128_bound frust.Kernel.Decimal.cmp
    frust.Prelude.Digits.digits
echoed = refl

hooked-echo_example :
    note
    ≡ filter
        (λ e. has_key e.0 note)
        (filter
          (λ e. is_declared invoice e.0)
          (with_id (record_name invoice (codes "1")) (merged baseline note)))
unfolding with_id merged set_entry has_key text_eq no_nan
hooked-echo_example =
    hooked-echo show_zero echo invoice [] (codes "1") note baseline (λ d. refl)
      (refl, (refl, (refl, (refl, tt)))) echoed

note_statement_lem : statement show_zero invoice update (some (codes "1")) note ≡ ok note_statement
unfolding statement frust.Prelude.Chars.join
note_statement_lem = refl

statement-IsStatement_example : IsStatement note_statement
unfolding frust.Prelude.Chars.strip_prefix
statement-IsStatement_example =
    statement-IsStatement show_zero (λ x e. unfold is_numeral in refl) invoice update
      (some (codes "1")) note (unfold is_ident in refl) note_statement_lem
