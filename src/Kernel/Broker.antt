-- ===== src/Kernel/Broker.antt =====
-- The write path of the broker: from a caller's payload over the hooks to one statement
-- (frust-kernel/kernel/src/broker.rs). The database under the caller's session and the hook dispatcher
-- are parameters; a refusal is told by its kind.
pub mod Write
pub mod Read
pub mod Hidden
pub mod Transition
pub mod Consent
pub mod Same
pub mod Echo
pub mod Statement
mod Tests
mod Roles
use frust.Prelude.{
  ℕ, zero, suc, ◌+◌, ◌-◌, ◌*◌, ◌/◌, ◌%◌, ◌^◌, ◌≤◌, ◌<◌, min, max, compare, Ordering, ◌≡◌, refl, sym,
  ap, ◌∙◌, subst, ◌≢◌, ◌↔◌, ◌⊎◌, inl, inr, Bool, true, false, not, ◌&&◌, ◌||◌, Option, none, some,
  List, [], ◌∷◌, ◌++◌, map, append-nil, append_assoc, arith, ltb, leb, ◌==◌, if◌then◌else◌, ==_iff,
  ltb→lt, leb→le, Bool-cases, Option-cases, bool_eq, length, take, drop, get_elem?, any, filter,
  find, is_empty, length-append, All, All-append, All-map, In, In-append_left, In-append_right,
  In-append,
}
use frust.Prelude.Text.{
  Text, codes, text_eq, text_eq_sound, text_eq_refl, text_eq_iff, text_ltb, text_ltb_irrefl,
  text_ltb_trans, text_ltb_total, contains-In, In-contains,
}
use frust.Prelude.Result.{Result, ok, err, ◌>>=◌}
use frust.Prelude.Chars.{all}
use frust.Prelude.Digits.{digits}
use frust.Kernel.Contract.{
  Value, null, bool, int, float, decimal, text, datetime, duration, record_id, list, object, Values,
  nil, cons, Entries, end, entry,
}
use frust.Kernel.Decimal.{Decimal, cmp, parse}
use frust.Kernel.Hooks.{
  HookClass, before_insert, validate, on_submit, on_cancel, HookChain, HookRefusal, push_hook,
}
use frust.Kernel.Surql.{RenderError, render_value}

-- A stored JSON value; a number is what `as_i64` answers, or the bits of an `f64`.
mutual
  pub data Json : Type 0 where
    json_null : Json
    json_bool : Bool → Json
    json_whole : Bool → ℕ → Json
    json_float : ℕ → Json
    json_string : Text → Json
    json_array : Jsons → Json
    json_object : JsonEntries → Json

  pub data Jsons : Type 0 where
    no_json : Jsons
    json_and : Json → Jsons → Jsons

  pub data JsonEntries : Type 0 where
    no_entry : JsonEntries
    json_entry : Text → Json → JsonEntries → JsonEntries

unfoldable mutual
  pub json_to_value : Json → Value
  json_to_value json_null = null
  json_to_value (json_bool b) = bool b
  json_to_value (json_whole s n) = int s n
  json_to_value (json_float x) = float x
  json_to_value (json_string s) = text s
  json_to_value (json_array js) = list (json_to_values js)
  json_to_value (json_object es) = object (json_to_entries es)

  pub json_to_values : Jsons → Values
  json_to_values no_json = nil
  json_to_values (json_and j js) = cons (json_to_value j) (json_to_values js)

  pub json_to_entries : JsonEntries → Entries
  json_to_entries no_entry = end
  json_to_entries (json_entry k j es) = entry k (json_to_value j) (json_to_entries es)

abbrev pub Doc : Type 0
Doc = List (Text × Value)

abbrev pub Row : Type 0
Row = List (Text × Json)

pub record FieldMeta : Type 0 where
  pub fieldname : Text
  pub fieldtype : Text
  pub perm_role : Option Text

pub record DocTypeMeta : Type 0 where
  pub name : Text
  pub fields : List FieldMeta

pub data WriteOp : Type 0 where
  create update : WriteOp

pub data BrokerError : Type 0 where
  unknown_doctype field_not_readable invalid_value path_too_deep delete_refused_docstatus
        delete_refused_single workflow_denied hook_cycle hook_depth_exceeded hook_rejected
        permission_denied db_error :
      BrokerError

abbrev pub of_render : {A : Type 0} → Result RenderError A → Result BrokerError A
of_render r = elim r [
  | ok x ↦ ok x
  | err e ↦ err (elim e [
    | RenderError.invalid_value ↦ invalid_value
    | RenderError.path_too_deep ↦ path_too_deep
  ])
]

abbrev pub of_hook_refusal : HookRefusal → BrokerError
of_hook_refusal HookRefusal.hook_cycle = hook_cycle
of_hook_refusal HookRefusal.hook_depth_exceeded = hook_depth_exceeded

abbrev pub is_nan : ℕ → Bool
is_nan bits = (bits / 2 ^ 52 % 2 ^ 11 == 2047) && not (bits % 2 ^ 52 == 0)

-- `==` of two `f64`: not-a-number is equal to nothing, and the two zeros are equal.
unfoldable pub float_eq : ℕ → ℕ → Bool
float_eq a b =
    not (is_nan a) && (not (is_nan b) && (a == b || (a % 2 ^ 63 == 0 && b % 2 ^ 63 == 0)))

-- `PartialEq` of the contract's values
unfoldable mutual
  unfolding float_eq

  pub value_eq : Value → Value → Bool
  value_eq null null = true
  value_eq (bool a) (bool b) = bool_eq a b
  value_eq (int s m) (int t n) = bool_eq s t && m == n
  value_eq (float x) (float y) = float_eq x y
  value_eq (decimal a) (decimal b) = text_eq a b
  value_eq (text a) (text b) = text_eq a b
  value_eq (datetime a) (datetime b) = text_eq a b
  value_eq (duration a) (duration b) = text_eq a b
  value_eq (record_id a) (record_id b) = text_eq a b
  value_eq (list a) (list b) = values_eq a b
  value_eq (object a) (object b) = entries_eq a b
  value_eq _ _ = false

  pub values_eq : Values → Values → Bool
  values_eq nil nil = true
  values_eq (cons v vs) (cons w ws) = value_eq v w && values_eq vs ws
  values_eq _ _ = false

  pub entries_eq : Entries → Entries → Bool
  entries_eq end end = true
  entries_eq (entry k v es) (entry l w fs) = text_eq k l && (value_eq v w && entries_eq es fs)
  entries_eq _ _ = false

abbrev pub as_num : (ℕ → Text) → Value → Option Decimal
as_num show_float (decimal s) = parse s
as_num show_float (text s) = parse s
as_num show_float (int true n) = parse (b'-' ∷ digits n)
as_num show_float (int false n) = parse (digits n)
as_num show_float (float x) = parse (show_float x)
as_num show_float _ = none

abbrev pub is_eq : Ordering → Bool
is_eq Ordering.eq = true
is_eq _ = false

abbrev pub same_num : Option Decimal → Option Decimal → Bool → Bool
same_num (some x) (some y) otherwise = is_eq (cmp x y)
same_num _ _ otherwise = otherwise

unfoldable pub same_value : (ℕ → Text) → Value → Value → Bool
same_value show_float a b = same_num (as_num show_float a) (as_num show_float b) (value_eq a b)

-- `doc.iter().find(|(k, _)| k == key)`
abbrev pub lookup {ℓ} : {A : Type ℓ} → Text → List (Text × A) → Option A
lookup key [] = none
lookup key (e ∷ es) = let rest = lookup key es in if text_eq e.0 key then some e.1 else rest

abbrev pub docstatus_of : Doc → Option (Bool × ℕ)
docstatus_of doc = elim (lookup (codes "docstatus") doc) [ some (int s n) ↦ some (s, n) | _ ↦ none ]

-- The payload laid over the baseline, one entry at a time
unfoldable pub set_entry : Text → Value → Doc → Doc
set_entry k v [] = (k, v) ∷ []
set_entry k v (e ∷ es) =
    let rest = set_entry k v es in if text_eq e.0 k then (e.0, v) ∷ es else e ∷ rest

unfoldable pub merged : Doc → Doc → Doc
unfolding set_entry
merged baseline [] = baseline
merged baseline (e ∷ es) = merged (set_entry e.0 e.1 baseline) es

unfoldable pub has_key {ℓ} : {A : Type ℓ} → Text → List (Text × A) → Bool
has_key k doc = any (λ e. text_eq e.0 k) doc

unfoldable pub with_id : Text → Doc → Doc
unfolding has_key
with_id key doc = if has_key (codes "id") doc then doc else doc ++ (codes "id", text key) ∷ []

abbrev pub engine_fields : List Text
engine_fields = codes "id" ∷ codes "status" ∷ codes "owner" ∷ codes "docstatus" ∷ []

-- What a hook may have stored: the metadata's fields and the engine's, never the record id.
unfoldable pub is_declared : DocTypeMeta → Text → Bool
is_declared meta k =
    not (text_eq k (codes "id"))
    && (any (λ f. text_eq (FieldMeta.fieldname f) k) meta.fields
        || (any (λ e. text_eq e k) engine_fields || text_eq k (codes "docstatus")))

-- Written by the caller, or changed by a hook against the document that it was shown
unfoldable pub is_changed : (ℕ → Text) → Doc → Doc → Text × Value → Bool
unfolding has_key same_value
is_changed show_float doc shown e =
    has_key e.0 doc || not (any (λ b. text_eq b.0 e.0 && same_value show_float b.1 e.1) shown)

unfoldable pub persisted : (ℕ → Text) → DocTypeMeta → WriteOp → (doc shown answer : Doc) → Doc
unfolding is_declared is_changed
persisted show_float meta create doc shown answer = filter (λ e. is_declared meta e.0) answer
persisted show_float meta update doc shown answer =
    filter (is_changed show_float doc shown) (filter (λ e. is_declared meta e.0) answer)

abbrev pub to_entries : Doc → Entries
to_entries [] = end
to_entries (e ∷ es) = entry e.0 e.1 (to_entries es)
