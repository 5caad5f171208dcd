-- ===== src/Orm/Field.antt =====
-- Structured field snapshots and the classification of a change between two of them
-- (frust-kernel/orm/src/field.rs). `reason` texts are left out of the verdicts.
pub mod Read
pub mod RoundTrip
pub mod Compat
use frust.Prelude.{
  ℕ, zero, suc, ◌+◌, ◌-◌, ◌*◌, ◌/◌, ◌%◌, ◌^◌, ◌≤◌, ◌<◌, min, max, compare, Ordering, ◌≡◌, refl, sym,
  ap, ◌∙◌, subst, ◌≢◌, ◌↔◌, ◌⊎◌, inl, inr, Bool, true, false, not, ◌&&◌, ◌||◌, Option, none, some,
  List, [], ◌∷◌, ◌++◌, map, append-nil, append_assoc, arith, ltb, leb, ◌==◌, if◌then◌else◌, ==_iff,
  ltb→lt, leb→le, Bool-cases, Option-cases, bool_eq, length, take, drop, get_elem?, any, filter,
  find, is_empty, length-append, All, All-append, All-map, In, In-append_left, In-append_right,
  In-append,
}
use frust.Prelude.Text.{
  Text, codes, text_eq, text_eq_sound, text_eq_refl, text_eq_iff, text_ltb, text_ltb_irrefl,
  text_ltb_trans, text_ltb_total, contains, contains-In, In-contains,
}
use native.Mathlib.Decide.{ℕ_discrete}

pub data SurrealType : Type 0 where
  string int float bool datetime duration decimal bytes uuid object any_type : SurrealType
  record_of : Text → SurrealType
  array : SurrealType → SurrealType
  geometry : Text → SurrealType
  other : Text → SurrealType

unfoldable pub SurrealType-discrete : Discrete SurrealType
SurrealType-discrete = hlevel ℕ_discrete

-- `a == b` on types
unfoldable pub type_eq : SurrealType → SurrealType → Bool
unfolding SurrealType-discrete
type_eq a b = elim (SurrealType-discrete a b) [ yes e ↦ true | no n ↦ false ]

pub type_eq_iff : (a b : SurrealType) → (type_eq a b ≡ true) ↔ (a ≡ b)
unfolding type_eq
type_eq_iff a b = (decided a b (SurrealType-discrete a b), equal a b (SurrealType-discrete a b))
  where
    decided :
        (a b : SurrealType) (d : Dec (a ≡ b))
        → elim d [ yes e ↦ true | no n ↦ false ] ≡ true
        → a ≡ b
    decided a b (yes e) h = e
    decided a b (no n) h = cc

    equal :
        (a b : SurrealType) (d : Dec (a ≡ b))
        → a ≡ b
        → elim d [ yes e ↦ true | no n ↦ false ] ≡ true
    equal a b (yes e) h = refl
    equal a b (no n) h = absurd (n h)

-- `SurrealType::is_opaque`
unfoldable pub is_opaque : SurrealType → Bool
is_opaque any_type = true
is_opaque (other s) = true
is_opaque _ = false

-- `SurrealType::render`
unfoldable pub render : SurrealType → Text
render string = codes "string"
render int = codes "int"
render float = codes "float"
render bool = codes "bool"
render datetime = codes "datetime"
render duration = codes "duration"
render decimal = codes "decimal"
render bytes = codes "bytes"
render uuid = codes "uuid"
render object = codes "object"
render any_type = codes "any"
render (record_of []) = codes "record"
render (record_of (c ∷ cs)) = codes "record<" ++ (c ∷ cs ++ codes ">")
render (array inner) = codes "array<" ++ (render inner ++ codes ">")
render (geometry g) = codes "geometry<" ++ (g ++ codes ">")
render (other s) = s

pub record FieldSnapshot : Type 0 where
  pub name : Text
  pub table_name : Text
  pub ty : SurrealType
  pub optional : Bool
  pub readonly : Bool
  pub has_value_or_default : Bool
  pub has_assert : Bool

-- `o == n` on snapshots
unfoldable pub field_eq : FieldSnapshot → FieldSnapshot → Bool
unfolding type_eq text_eq
field_eq o n =
    text_eq o.name n.name
    && (text_eq o.table_name n.table_name
        && (type_eq o.ty n.ty
            && (bool_eq o.optional n.optional
                && (bool_eq o.readonly n.readonly
                    && (bool_eq o.has_value_or_default n.has_value_or_default
                        && bool_eq o.has_assert n.has_assert)))))

pub data FieldClass : Type 0 where
  safe warn needs_backfill blocked : FieldClass

pub data FieldChange : Type 0 where
  no_op added dropped type_widened type_narrowed became_optional became_required : FieldChange
  attributes_changed conservative : FieldChange

pub record FieldChangeClassification : Type 0 where
  pub change : FieldChange
  pub class : FieldClass

abbrev pub verdict : FieldChange → FieldClass → FieldChangeClassification
verdict c s = record { change = c; class = s }

unfoldable pub is_widening : SurrealType → SurrealType → Bool
is_widening int float = true
is_widening int decimal = true
is_widening float decimal = true
is_widening _ _ = false

unfoldable pub attrs_changed : FieldSnapshot → FieldSnapshot → Bool
attrs_changed o n =
    not (bool_eq o.readonly n.readonly)
    || (not (bool_eq o.has_value_or_default n.has_value_or_default)
        || not (bool_eq o.has_assert n.has_assert))

unfoldable pub classify_modify : FieldSnapshot → FieldSnapshot → FieldChangeClassification
unfolding attrs_changed
classify_modify o n =
    let null_narrows = o.optional && not n.optional in
    let null_widens = not o.optional && n.optional in
    if is_opaque o.ty || is_opaque n.ty
    then (if field_eq o n then verdict no_op safe else verdict conservative blocked)
    else if type_eq o.ty n.ty
    then (if null_narrows
        then verdict became_required needs_backfill
        else if null_widens
        then verdict became_optional safe
        else if attrs_changed o n
        then verdict attributes_changed warn
        else verdict no_op safe)
    else if is_widening o.ty n.ty
    then (if null_narrows
        then verdict became_required needs_backfill
        else verdict type_widened safe)
    else verdict type_narrowed blocked

unfoldable pub classify_field_change :
    Option FieldSnapshot → Option FieldSnapshot → FieldChangeClassification
classify_field_change none none = verdict no_op safe
classify_field_change none (some n) =
    if n.optional || n.has_value_or_default
    then verdict added safe
    else verdict added needs_backfill
classify_field_change (some o) none = verdict dropped blocked
classify_field_change (some o) (some n) = classify_modify o n
