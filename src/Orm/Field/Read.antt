-- ===== src/Orm/Field/Read.antt =====
-- `SurrealType::parse_inner` and `FieldSnapshot::parse` (frust-kernel/orm/src/field.rs). The types are
-- parsed on fuel: each `array<…>` takes seven bytes, so the length of the text is enough.
use frust.Prelude.{
  ℕ, zero, suc, Bool, true, false, not, ◌&&◌, ◌||◌, Option, none, some, List, [], ◌∷◌, ◌++◌, map,
  ◌==◌, if◌then◌else◌, length, drop, any, is_empty,
}
use frust.Prelude.Text.{Text, codes, text_eq}
use frust.Prelude.Chars.{
  to_lower, eq_ignore_case, trim, split_whitespace, strip_prefix, strip_suffix, join,
}
use frust.Orm.Field.{
  SurrealType, string, int, float, bool, datetime, duration, decimal, bytes, uuid, object, any_type,
  record_of, array, geometry, other, FieldSnapshot,
}

-- The arms of the `match` on whole words.
unfoldable pub word_type : Text → Option SurrealType
unfolding text_eq
word_type s =
    if text_eq s (codes "string")
    then some string
    else if text_eq s (codes "int")
    then some int
    else if text_eq s (codes "float")
    then some float
    else if text_eq s (codes "bool")
    then some bool
    else if text_eq s (codes "datetime")
    then some datetime
    else if text_eq s (codes "duration")
    then some duration
    else if text_eq s (codes "decimal")
    then some decimal
    else if text_eq s (codes "bytes")
    then some bytes
    else if text_eq s (codes "uuid")
    then some uuid
    else if text_eq s (codes "object")
    then some object
    else if text_eq s (codes "any")
    then some any_type
    else if text_eq s (codes "record")
    then some (record_of [])
    else if text_eq s (codes "array")
    then some (array any_type)
    else none

-- `s.strip_prefix(head).and_then(|x| x.strip_suffix('>'))`
unfoldable pub bracketed : Text → Text → Option Text
unfolding strip_prefix strip_suffix
bracketed head s = elim (strip_prefix head s) [ none ↦ none | some x ↦ strip_suffix b'>' x ]

-- The prefixes in their order, with what `array<…>` holds parsed by `inner_type`.
unfoldable pub pick_bracketed :
    (Text → SurrealType) → Text → Option Text → Option Text → Option Text → SurrealType
pick_bracketed inner_type s (some target) arr geo = record_of target
pick_bracketed inner_type s none (some inner) geo = array (inner_type inner)
pick_bracketed inner_type s none none (some g) = geometry g
pick_bracketed inner_type s none none none = other s

unfoldable pub parse_trimmed : (Text → SurrealType) → Text → SurrealType
unfolding word_type bracketed pick_bracketed
parse_trimmed inner_type s = elim (word_type s) [
  | some t ↦ t
  | none ↦
      pick_bracketed inner_type s (bracketed (codes "record<") s) (bracketed (codes "array<") s)
        (bracketed (codes "geometry<") s)
]

unfoldable pub parse_inner_fuel : ℕ → Text → SurrealType
unfolding parse_trimmed trim
parse_inner_fuel zero s = other s
parse_inner_fuel (suc fuel) s = parse_trimmed (parse_inner_fuel fuel) (trim s)

unfoldable pub parse_inner : Text → SurrealType
unfolding parse_inner_fuel
parse_inner s = parse_inner_fuel (suc (length s)) s

unfoldable pub is_clause_keyword : Text → Bool
unfolding eq_ignore_case
is_clause_keyword t =
    any (λ k. eq_ignore_case t k)
      (codes "VALUE"
        ∷ codes "DEFAULT"
        ∷ codes "READONLY"
        ∷ codes "ASSERT"
        ∷ codes "PERMISSIONS"
        ∷ codes "COMMENT"
        ∷ codes "FLEXIBLE"
        ∷ codes "REFERENCE"
        ∷ [])

-- The variables of the loop over the clauses.
pub record Clauses : Type 0 where
  pub type_parts : List Text
  pub readonly : Bool
  pub has_value_or_default : Bool
  pub has_assert : Bool

abbrev pub no_clauses : Clauses
no_clauses = record {
  type_parts = [];
  readonly = false;
  has_value_or_default = false;
  has_assert = false;
}

-- A token outside a `TYPE` clause.
unfoldable pub take_clause : Text → Clauses → Clauses
unfolding eq_ignore_case
take_clause t c =
    if eq_ignore_case t (codes "READONLY")
    then record c { readonly = true }
    else if eq_ignore_case t (codes "VALUE") || eq_ignore_case t (codes "DEFAULT")
    then record c { has_value_or_default = true }
    else if eq_ignore_case t (codes "ASSERT")
    then record c { has_assert = true }
    else c

-- The outer loop and, where the flag is set, the inner loop, which collects the tokens of a type up
-- to the next clause keyword.
unfoldable pub scan_clauses : Bool → List Text → Clauses → Clauses
unfolding take_clause is_clause_keyword
scan_clauses in_type [] c = c
scan_clauses in_type (t ∷ ts) c =
    let collect = scan_clauses true ts (record c { type_parts = c.type_parts ++ t ∷ [] }) in
    let enter = scan_clauses true ts c in
    let go = scan_clauses false ts (take_clause t c) in
    if in_type && not (is_clause_keyword t)
    then collect
    else if eq_ignore_case t (codes "TYPE")
    then enter
    else go

-- `(optional, ty)` of the collected type.
unfoldable pub nullable_type : Text → Bool × SurrealType
unfolding parse_inner strip_prefix strip_suffix to_lower
nullable_type type_str =
    if is_empty type_str
    then (true, any_type)
    else elim (strip_prefix (codes "option<") (map to_lower type_str)) [
      | none ↦ (false, parse_inner type_str)
      | some rest ↦ elim (strip_suffix b'>' (drop 7 type_str)) [
        | none ↦ (false, parse_inner type_str)
        | some inner ↦ (true, parse_inner inner)
      ]
    ]

unfoldable pub build : Text → Text → Clauses → FieldSnapshot
unfolding nullable_type
build name on c =
    let (optional, ty) = nullable_type (join (codes " ") c.type_parts) in
    record {
      name = name;
      table_name = on;
      ty = ty;
      optional = optional;
      readonly = c.readonly;
      has_value_or_default = c.has_value_or_default;
      has_assert = c.has_assert;
    }

-- From the name on: `<name> ON TABLE <table> <clauses>`.
unfoldable pub parse_named : List Text → Option FieldSnapshot
unfolding build scan_clauses eq_ignore_case
parse_named (name ∷ on ∷ tab ∷ table ∷ rest) =
    if not (eq_ignore_case on (codes "ON"))
    then none
    else if not (eq_ignore_case tab (codes "TABLE"))
    then none
    else some (build name table (scan_clauses false rest no_clauses))
parse_named _ = none

-- The qualifier before the name: `OVERWRITE` or `IF NOT EXISTS`.
unfoldable pub skip_qualifier : List Text → List Text
unfolding eq_ignore_case
skip_qualifier [] = []
skip_qualifier (t ∷ ts) =
    if eq_ignore_case t (codes "OVERWRITE")
    then ts
    else if eq_ignore_case t (codes "IF")
    then drop 2 ts
    else t ∷ ts

unfoldable pub parse_field_tokens : List Text → Option FieldSnapshot
unfolding parse_named skip_qualifier
parse_field_tokens (d ∷ f ∷ ts) =
    if not (eq_ignore_case d (codes "DEFINE"))
    then none
    else if not (eq_ignore_case f (codes "FIELD"))
    then none
    else parse_named (skip_qualifier ts)
parse_field_tokens _ = none

-- `trim_end_matches(';')`
unfoldable pub trim_semicolons : Text → Text
trim_semicolons [] = []
trim_semicolons (c ∷ cs) =
    let rest = trim_semicolons cs in if is_empty rest && c == b';' then [] else c ∷ rest

unfoldable pub parse : Text → Option FieldSnapshot
unfolding parse_field_tokens trim trim_semicolons split_whitespace
parse define_sql = parse_field_tokens (split_whitespace (trim (trim_semicolons (trim define_sql))))
