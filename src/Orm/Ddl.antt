-- ===== src/Orm/Ddl.antt =====
-- The reader of DDL blocks: `split_statements`, `parse_define` and `SchemaSnapshot::from_sql`
-- (frust-kernel/orm/src/schema.rs).
pub mod Split
pub mod Run
pub mod Define
pub mod Block
use frust.Prelude.{
  ℕ, zero, suc, ◌+◌, ◌-◌, ◌*◌, ◌/◌, ◌%◌, ◌^◌, ◌≤◌, ◌<◌, min, max, compare, Ordering, ◌≡◌, refl, sym,
  ap, ◌∙◌, subst, ◌≢◌, ◌↔◌, ◌⊎◌, inl, inr, Bool, true, false, not, ◌&&◌, ◌||◌, Option, none, some,
  List, [], ◌∷◌, ◌++◌, map, append-nil, append_assoc, arith, ltb, leb, ◌==◌, if◌then◌else◌, ==_iff,
  ltb→lt, leb→le, Bool-cases, Option-cases, bool_eq, length, take, drop, get_elem?, any, filter,
  find, is_empty, length-append, All, All-append, All-map, In, In-append_left, In-append_right,
  In-append,
}
use frust.Prelude.Text.{
  Text, codes, text_eq, text_eq_sound, text_eq_refl, text_eq_iff, text_ltb, text_ltb_irrefl,
  text_ltb_trans, text_ltb_total, contains, contains-In, In-contains,
}
use frust.Prelude.Chars.{
  is_space, is_digit, is_lower, is_upper, is_alphanumeric, to_upper, to_lower, all, eq_ignore_case,
  trim_start, trim_end, trim, words_from, split_whitespace, strip_prefix, strip_suffix, split_once,
  join, NoSpace, NoSpace-of_all, split_whitespace-word, split_whitespace-single,
  eq_ignore_case_refl, strip_prefix-append, strip_suffix-append, split_once-append,
}
use frust.OrdMap.{OrdMap, IsSorted, insert, insert-IsSorted}
use frust.Orm.Schema.{
  ObjectKind, table, field, index, event, SchemaObject, key, Objects, SchemaSnapshot, Keyed,
  IsWellFormed,
}

-- The variables of the loop: the depth of braces, inside a quoted string or not, and whether the
-- byte is the one that a backslash in a string skips.
pub record Scan : Type 0 where
  pub depth : ℕ
  pub in_str : Bool
  pub skip : Bool

abbrev pub outside : Scan
outside = record { depth = 0; in_str = false; skip = false }

-- The arms of the `match`, but the last.
unfoldable pub step : Scan → ℕ → Scan
step s c =
    if s.skip
    then record s { skip = false }
    else if c == b'\\' && s.in_str
    then record s { skip = true }
    else if c == b'\''
    then record s { in_str = not s.in_str }
    else if c == b'{' && not s.in_str
    then record s { depth = s.depth + 1 }
    else if c == b'}' && not s.in_str
    then record s { depth = s.depth - 1 }
    else s

-- The arm that ends a statement.
unfoldable pub ends : Scan → ℕ → Bool
ends s c = not s.skip && (c == b';' && (not s.in_str && s.depth == 0))

-- The loop, with the statement that is being read.
unfoldable pub split_from : Scan → Text → Text → List Text
unfolding step ends
split_from s cur [] = if is_empty cur then [] else cur ∷ []
split_from s cur (c ∷ rest) =
    let next = split_from s [] rest in
    let more = split_from (step s c) (cur ++ c ∷ []) rest in if ends s c then cur ∷ next else more

unfoldable pub split_statements : Text → List Text
unfolding split_from
split_statements sql = split_from outside [] sql

-- `toks.next()?.to_ascii_uppercase()`, matched
unfoldable pub parse_kind : Text → Option ObjectKind
unfolding eq_ignore_case
parse_kind t =
    if eq_ignore_case t (codes "TABLE")
    then some table
    else if eq_ignore_case t (codes "FIELD")
    then some field
    else if eq_ignore_case t (codes "INDEX")
    then some index
    else if eq_ignore_case t (codes "EVENT")
    then some event
    else none

-- The name, behind an `OVERWRITE` or an `IF NOT EXISTS`.
unfoldable pub name_of : List Text → Option Text
unfolding eq_ignore_case
name_of [] = none
name_of (t ∷ ts) =
    if eq_ignore_case t (codes "OVERWRITE")
    then get_elem? ts 0
    else if eq_ignore_case t (codes "IF")
    then get_elem? ts 2
    else some t

unfoldable pub parse_tokens : Text → List Text → Option SchemaObject
unfolding parse_kind name_of
parse_tokens stmt [] = none
parse_tokens stmt (d ∷ []) = none
parse_tokens stmt (d ∷ k ∷ ts) =
    if not (eq_ignore_case d (codes "DEFINE")) then none else elim (parse_kind k) [
      | none ↦ none
      | some kind ↦ elim (name_of ts) [
        | none ↦ none
        | some name ↦ some (record { kind = kind; name = name; define_sql = stmt })
      ]
    ]

unfoldable pub parse_define : Text → Option SchemaObject
parse_define stmt = parse_tokens stmt (split_whitespace stmt)

-- The loop of `from_sql` over the statements; a later object of a key replaces an earlier one.
unfoldable pub collect : List Text → Objects → Objects
collect [] m = m
collect (raw ∷ rest) m = collect rest (
    if is_empty (trim raw)
    then m
    else elim (parse_define (trim raw)) [ none ↦ m | some o ↦ insert (key o) o m ])

unfoldable pub from_sql : Text → Text → SchemaSnapshot
from_sql name sql = record { table_name = name; objects = collect (split_statements sql) [] }
