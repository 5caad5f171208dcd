-- ===== src/Orm/Drift.antt =====
-- Drift: the recorded snapshots against the live schema (frust-kernel/orm/src/drift.rs). What INFO says
-- of a table, read into a snapshot, is a parameter.
pub mod Report
mod Tests
use frust.Prelude.{
  ℕ, zero, suc, ◌+◌, ◌-◌, ◌*◌, ◌/◌, ◌%◌, ◌^◌, ◌≤◌, ◌<◌, min, max, compare, Ordering, ◌≡◌, refl, sym,
  ap, ◌∙◌, subst, ◌≢◌, ◌↔◌, ◌⊎◌, inl, inr, Bool, true, false, not, ◌&&◌, ◌||◌, Option, none, some,
  List, [], ◌∷◌, ◌++◌, map, append-nil, append_assoc, arith, ltb, leb, ◌==◌, if◌then◌else◌, ==_iff,
  ltb→lt, leb→le, Bool-cases, Option-cases, bool_eq, length, take, drop, get_elem?, any, filter,
  find, is_empty, length-append, All, All-append, All-map, In, In-append_left, In-append_right,
  In-append,
}
use frust.Prelude.Text.{
  Text, codes, text_eq, text_eq_sound, text_eq_refl, text_eq_iff, text_ltb, text_ltb_irrefl,
  text_ltb_trans, text_ltb_total, contains, contains-In, In-contains,
}
use frust.OrdMap.{OrdMap}
use frust.Orm.Schema.{SchemaSnapshot}

pub record ResourceDrift : Type 0 where
  pub name : Text
  pub table : Text
  pub unexpected : List Text
  pub missing : List Text

abbrev pub keys {ℓ} : {V : Type ℓ} → OrdMap V → List Text
keys [] = []
keys ((k, v) ∷ m) = k ∷ keys m

-- `a.difference(&b)`
unfoldable pub difference : List Text → List Text → List Text
difference a b = filter (λ k. not (contains b k)) a

unfoldable pub resource_drift : Text → (recorded live : SchemaSnapshot) → Option ResourceDrift
resource_drift name recorded live =
    let stored = keys recorded.objects in
    let present = keys live.objects in
    let unexpected = difference present stored in
    let missing = difference stored present in
    if not (is_empty unexpected) || not (is_empty missing)
    then some (record {
      name = name;
      table = recorded.table_name;
      unexpected = unexpected;
      missing = missing;
    })
    else none

-- The resources of the history, with the version that was recorded last
unfoldable pub drifts :
    (Text → SchemaSnapshot) → List (Text × (ℕ × SchemaSnapshot)) → List ResourceDrift
drifts live [] = []
drifts live ((name, (version, snapshot)) ∷ history) =
    let rest = drifts live history in
    if is_empty snapshot.table_name
    then rest
    else elim (resource_drift name snapshot (live snapshot.table_name)) [
      | none ↦ rest
      | some d ↦ d ∷ rest
    ]

unfoldable pub insert_by_name : ResourceDrift → List ResourceDrift → List ResourceDrift
insert_by_name d [] = d ∷ []
insert_by_name d (e ∷ es) =
    let rest = insert_by_name d es in if text_ltb e.name d.name then e ∷ rest else d ∷ e ∷ es

-- `sort_by` on the names
unfoldable pub sort_by_name : List ResourceDrift → List ResourceDrift
unfolding insert_by_name
sort_by_name [] = []
sort_by_name (d ∷ ds) = insert_by_name d (sort_by_name ds)

unfoldable pub detect_scope_drift :
    (Text → SchemaSnapshot) → List (Text × (ℕ × SchemaSnapshot)) → List ResourceDrift
unfolding drifts sort_by_name
detect_scope_drift live history = sort_by_name (drifts live history)
