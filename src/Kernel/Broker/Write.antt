-- ===== src/Kernel/Broker/Write.antt =====
-- `db_write_inner`: the hooks in their order, the statement, and what its answer means
-- (frust-kernel/kernel/src/broker.rs). The store of the database is carried along.
use frust.Prelude.{
  ℕ, Bool, false, not, ◌&&◌, Option, none, some, List, [], ◌∷◌, ◌++◌, map, ◌==◌, if◌then◌else◌,
  filter, find,
}
use frust.Prelude.Text.{Text, codes, text_eq}
use frust.Prelude.Result.{Result, ok, err, ◌>>=◌}
use frust.Kernel.Contract.{Value, object, text, record_id}
use frust.Kernel.Hooks.{
  HookClass, before_insert, validate, on_submit, on_cancel, HookChain, push_hook,
}
use frust.Kernel.Surql.{render_value}
use frust.Kernel.Broker.{
  Json, json_string, json_to_value, json_whole, Doc, Row, FieldMeta, DocTypeMeta, WriteOp, create,
  update, BrokerError, invalid_value, permission_denied, of_render, of_hook_refusal, lookup,
  docstatus_of, merged, with_id, persisted, to_entries,
}

-- The hook dispatcher, bound to the tenant and the doctype of the request
pub record Dispatch : Type 0 where
  pub fire_for : HookClass → Doc → Result BrokerError Doc
  pub validate_for : Doc → Result BrokerError Doc

abbrev pub record_name : DocTypeMeta → Text → Text
record_name meta key = meta.name ++ b':' ∷ key

abbrev pub record_key : Option Text → Text
record_key none = codes "new"
record_key (some key) = key

abbrev pub push_class : DocTypeMeta → Text → HookClass → HookChain → Result BrokerError HookChain
push_class meta key class chain = elim (push_hook (record_name meta key) class chain) [
  | ok c ↦ ok c
  | err e ↦ err (of_hook_refusal e)
]

-- A docstatus that is not the number `n` becomes it.
unfoldable pub crosses : ℕ → Bool × ℕ → Bool × ℕ → Bool
crosses n before after = not (not before.0 && before.1 == n) && (not after.0 && after.1 == n)

abbrev pub status_or : Bool × ℕ → Option (Bool × ℕ) → Bool × ℕ
status_or d none = d
status_or d (some s) = s

abbrev pub status_before : Doc → Bool × ℕ
status_before baseline = status_or (false, 0) (docstatus_of baseline)

abbrev pub status_after : Doc → Doc → Bool × ℕ
status_after baseline shown = status_or (status_before baseline) (docstatus_of shown)

module _ (show_float : ℕ → Text) (hooks : Dispatch) (meta : DocTypeMeta) (chain : HookChain) where
  -- A class that may only reject: its document is discarded.
  abbrev pub fire_edge : Text → HookClass → ℕ → (baseline shown : Doc) → Result BrokerError Unit
  fire_edge key class n baseline shown =
      if crosses n (status_before baseline) (status_after baseline shown)
      then (push_class meta key class chain >>= λ c.
          Dispatch.fire_for hooks class shown >>= λ d. ok tt)
      else ok tt

  -- The document that the hooks behind `before_insert` are shown
  unfoldable pub shown_doc : WriteOp → Text → (doc baseline : Doc) → Result BrokerError Doc
  shown_doc create key doc baseline = push_class meta key before_insert chain >>= λ c.
      Dispatch.fire_for hooks before_insert (with_id (record_name meta key) (merged baseline doc))
  shown_doc update key doc baseline = ok (with_id (record_name meta key) (merged baseline doc))

  unfoldable pub hooked : WriteOp → Text → (doc baseline : Doc) → Result BrokerError Doc
  unfolding shown_doc crosses
  hooked op key doc baseline = shown_doc op key doc baseline >>= λ shown.
      fire_edge key on_submit 1 baseline shown >>= λ s.
      fire_edge key on_cancel 2 baseline shown >>= λ c.
      Dispatch.validate_for hooks shown >>= λ answer.
      ok (persisted show_float meta op doc shown answer)

unfoldable pub statement :
    (ℕ → Text) → DocTypeMeta → WriteOp → Option Text → Doc → Result BrokerError Text
unfolding render_value
statement show_float meta op key entries =
    of_render (render_value show_float (object (to_entries entries))) >>= λ content. elim op [
      | create ↦
          ok (codes "CREATE " ++ (meta.name ++ (codes " CONTENT " ++ (content ++ codes ";"))))
      | update ↦ elim key [
        | none ↦ err invalid_value
        | some k ↦ of_render (render_value show_float (record_id (record_name meta k))) >>= λ rid.
            ok (codes "UPDATE " ++ (rid ++ (codes " MERGE " ++ (content ++ codes ";"))))
      ]
    ]

-- A currency is stored as text, and becomes a decimal again.
abbrev pub typed_value : DocTypeMeta → Text → Json → Value
typed_value meta k v = elim (find (λ f. text_eq (FieldMeta.fieldname f) k) meta.fields) [
  | none ↦ json_to_value v
  | some f ↦ elim v [
    | json_string s ↦
        if text_eq (FieldMeta.fieldtype f) (codes "Currency") then Value.decimal s else text s
    | other ↦ json_to_value other
  ]
]

abbrev pub of_row : DocTypeMeta → Row → Doc
of_row meta row =
    map (λ e. (e.0, typed_value meta e.0 e.1)) (filter (λ e. not (text_eq e.0 (codes "id"))) row)

-- What follows a write that was stored
pub data Trigger : Type 0 where
  after_insert updated submitted cancelled : Trigger

abbrev write_trigger : WriteOp → Trigger
write_trigger create = after_insert
write_trigger update = updated

unfoldable pub triggers : WriteOp → Doc → Row → List Trigger
unfolding crosses
triggers op baseline stored =
    let before = status_before baseline in
    let after : Bool × ℕ = elim (lookup (codes "docstatus") stored) [
      | some (json_whole s n) ↦ (s, n)
      | _ ↦ before
    ] in
    write_trigger op
    ∷ ((if crosses 1 before after then submitted ∷ [] else [])
        ++ (if crosses 2 before after then cancelled ∷ [] else []))

-- The database under the caller's session, over its store `S`: the first row of the answer.
module _ {S : Type 0} (sql_as : Text → S → S × Result BrokerError (Option Row))
    (show_float : ℕ → Text) (hooks : Dispatch) (meta : DocTypeMeta) where
  unfoldable pub record_for_hook : Text → S → S × Result BrokerError Doc
  record_for_hook key s =
      elim (of_render (render_value show_float (record_id (record_name meta key)))) [
        | err e ↦ (s, err e)
        | ok rid ↦
            let (s', out) = sql_as (codes "SELECT * FROM " ++ (rid ++ codes ";")) s in
            (s', (out >>= λ row. ok (elim row [ none ↦ [] | some r ↦ of_row meta r ])))
      ]

  unfoldable pub baseline_of : WriteOp → Option Text → S → S × Result BrokerError Doc
  unfolding record_for_hook
  baseline_of update (some key) s = record_for_hook key s
  baseline_of _ _ s = (s, ok [])

  -- The statement is sent; an answer without a row is a refusal.
  unfoldable pub execute : WriteOp → Doc → Text → S → S × Result BrokerError (Row × List Trigger)
  unfolding triggers
  execute op baseline q s =
      let (s', out) = sql_as q s in
      (
        s',
        (out >>= λ row. elim row [
          | none ↦ err permission_denied
          | some stored ↦ ok (stored, triggers op baseline stored)
        ]),
      )

  -- The hooks and the statement, from a baseline that was read
  unfoldable pub write_over :
      HookChain
      → WriteOp
      → Option Text
      → (doc baseline : Doc) → S
      → S × Result BrokerError (Row × List Trigger)
  unfolding hooked statement execute
  write_over chain op key doc baseline s =
      elim (hooked show_float hooks meta chain op (record_key key) doc baseline >>= λ entries.
      statement show_float meta op key entries) [
        | err e ↦ (s, err e)
        | ok q ↦ execute op baseline q s
      ]

  unfoldable pub db_write_inner :
      HookChain → WriteOp → Option Text → Doc → S → S × Result BrokerError (Row × List Trigger)
  unfolding baseline_of write_over
  db_write_inner chain op key doc s = elim (push_class meta (record_key key) validate chain) [
    | err e ↦ (s, err e)
    | ok _ ↦
        let (s', read) = baseline_of op key s in
        elim read [ err e ↦ (s', err e) | ok baseline ↦ write_over chain op key doc baseline s' ]
  ]
