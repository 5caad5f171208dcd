-- ===== src/Orm/Schema.antt =====
-- Structured schema snapshots and their difference (frust-kernel/orm/src/schema.rs). A snapshot is
-- the map of the objects that a resource declares; `diff` compares two of them, and `statements`
-- is the DDL that the engine sends for the difference.
pub mod Apply
pub mod Loops
pub mod Reach
pub mod Loss
use frust.Prelude.{
  ℕ, zero, suc, ◌+◌, ◌-◌, ◌*◌, ◌/◌, ◌%◌, ◌^◌, ◌≤◌, ◌<◌, min, max, compare, Ordering, ◌≡◌, refl, sym,
  ap, ◌∙◌, subst, ◌≢◌, ◌↔◌, ◌⊎◌, inl, inr, Bool, true, false, not, ◌&&◌, ◌||◌, Option, none, some,
  List, [], ◌∷◌, ◌++◌, map, append-nil, append_assoc, arith, ltb, leb, ◌==◌, if◌then◌else◌, ==_iff,
  ltb→lt, leb→le, Bool-cases, Option-cases, bool_eq, length, take, drop, get_elem?, any, filter,
  find, is_empty, length-append, All, All-append, All-map, In, In-append_left, In-append_right,
  In-append,
}
use frust.Prelude.Text.{
  Text, codes, text_eq, text_eq_sound, text_eq_refl, text_eq_iff, text_ltb, text_ltb_irrefl,
  text_ltb_trans, text_ltb_total, contains, contains-In, In-contains,
}
use frust.OrdMap.{OrdMap, IsSorted, get, insert, remove}

pub data ObjectKind : Type 0 where
  table field index event : ObjectKind

-- `kind == other`
abbrev pub kind_eq : ObjectKind → ObjectKind → Bool
kind_eq table table = true
kind_eq field field = true
kind_eq index index = true
kind_eq event event = true
kind_eq _ _ = false

unfoldable pub keyword : ObjectKind → Text
keyword table = codes "table"
keyword field = codes "field"
keyword index = codes "index"
keyword event = codes "event"

-- The order in which objects are applied.
abbrev pub rank : ObjectKind → ℕ
rank table = 0
rank field = 1
rank index = 2
rank event = 3

pub record SchemaObject : Type 0 where
  pub kind : ObjectKind
  pub name : Text
  pub define_sql : Text

unfoldable pub key : SchemaObject → Text
unfolding keyword
key o = keyword o.kind ++ codes ":" ++ o.name

abbrev pub Objects : Type 0
Objects = OrdMap SchemaObject

pub record SchemaSnapshot : Type 0 where
  pub table_name : Text
  pub objects : Objects

-- `SchemaSnapshot::default()`
abbrev pub empty_snapshot : SchemaSnapshot
empty_snapshot = record { table_name = []; objects = [] }

pub record DroppedObject : Type 0 where
  pub kind : ObjectKind
  pub name : Text

pub record SchemaDiff : Type 0 where
  pub new_table : Bool
  pub creates : List SchemaObject
  pub alters : List SchemaObject
  pub drops : List DroppedObject

-- `SchemaDiff::is_empty`
abbrev pub is_empty_diff : SchemaDiff → Bool
is_empty_diff d = is_empty d.creates && is_empty d.alters && is_empty d.drops

-- The loop over the new objects: the objects to create and to alter.
unfoldable pub creates_of : Objects → Objects → List SchemaObject
creates_of old [] = []
creates_of old ((k, o) ∷ rest) =
    let tail = creates_of old rest in elim (get k old) [ none ↦ o ∷ tail | some prev ↦ tail ]

unfoldable pub alters_of : Objects → Objects → List SchemaObject
alters_of old [] = []
alters_of old ((k, o) ∷ rest) =
    let tail = alters_of old rest in
    elim (get k old) [
      | none ↦ tail
      | some prev ↦ if not (text_eq prev.define_sql o.define_sql) then o ∷ tail else tail
    ]

-- The loop over the old objects: those that are gone.
unfoldable pub drops_of : Objects → Objects → List DroppedObject
drops_of new [] = []
drops_of new ((k, o) ∷ rest) =
    let tail = drops_of new rest in
    elim (get k new) [ none ↦ record { kind = o.kind; name = o.name } ∷ tail | some present ↦ tail ]

unfoldable pub diff : SchemaSnapshot → SchemaSnapshot → SchemaDiff
unfolding creates_of alters_of drops_of
diff old new = record {
  new_table = is_empty old.objects;
  creates = creates_of old.objects new.objects;
  alters = alters_of old.objects new.objects;
  drops = drops_of new.objects old.objects;
}

-- One loop step each of `destructive` and `warnings`.
abbrev pub named : Text → List Text → List Text
named verb names = map (λ n. verb ++ n) names

abbrev pub dropped_names : ObjectKind → List DroppedObject → List Text
dropped_names kind ds = map (λ (d : DroppedObject). d.name) (filter (λ d. kind_eq d.kind kind) ds)

abbrev pub object_names : ObjectKind → List SchemaObject → List Text
object_names kind os = map (λ (o : SchemaObject). o.name) (filter (λ o. kind_eq o.kind kind) os)

unfoldable pub destructive : SchemaDiff → List Text
destructive d = named (codes "REMOVE FIELD ") (dropped_names field d.drops)

unfoldable pub warnings : SchemaDiff → List Text
warnings d =
    named (codes "ALTER FIELD ") (object_names field d.alters)
    ++ (named (codes "REMOVE INDEX ") (dropped_names index d.drops)
        ++ (named (codes "ALTER EVENT ") (object_names event d.alters)
            ++ named (codes "REMOVE EVENT ") (dropped_names event d.drops)))

-- `sort_by_key(|o| o.kind.rank())`, which is stable: an object goes before the first of a higher or
-- equal rank.
unfoldable pub insert_by_rank : SchemaObject → List SchemaObject → List SchemaObject
insert_by_rank o [] = o ∷ []
insert_by_rank o (p ∷ ps) =
    let rest = insert_by_rank o ps in
    if leb (rank o.kind) (rank p.kind) then o ∷ p ∷ ps else p ∷ rest

unfoldable pub sort_by_rank : List SchemaObject → List SchemaObject
unfolding insert_by_rank
sort_by_rank [] = []
sort_by_rank (o ∷ os) = insert_by_rank o (sort_by_rank os)

-- The objects that `statements` defines, in its order.
abbrev pub applied : SchemaDiff → List SchemaObject
applied d = sort_by_rank (d.creates ++ d.alters)

abbrev remove_statement : Text → Text → Text → Text
remove_statement what name on =
    codes "REMOVE " ++ (what ++ (codes " IF EXISTS " ++ (name ++ (codes " ON TABLE " ++ on))))

unfoldable pub drop_statement : Text → DroppedObject → List Text
drop_statement on d = elim d.kind [
  | field ↦ remove_statement (codes "FIELD") d.name on ∷ []
  | index ↦ remove_statement (codes "INDEX") d.name on ∷ []
  | event ↦ remove_statement (codes "EVENT") d.name on ∷ []
  | table ↦ []
]

unfoldable pub drop_statements : Text → List DroppedObject → List Text
unfolding drop_statement
drop_statements on [] = []
drop_statements on (d ∷ ds) = drop_statement on d ++ drop_statements on ds

unfoldable pub statements : SchemaDiff → Text → List Text
unfolding sort_by_rank drop_statements
statements d on = map (λ (o : SchemaObject). o.define_sql) (applied d) ++ drop_statements on d.drops

-- What the map of a snapshot keeps: its keys are those of its objects, and they rise.
abbrev pub Keyed : Objects → Type 0
Keyed [] = Unit
Keyed ((k, o) ∷ m) = (key o ≡ k) × Keyed m

pub record IsWellFormed (s : SchemaSnapshot) : Type 0 where
  pub sorted : IsSorted s.objects
  pub keyed : Keyed s.objects

-- The keywords differ in their first letter.
abbrev first_code : Text → ℕ
first_code [] = 0
first_code (c ∷ cs) = c

pub keyword-injective :
    (k l : ObjectKind) (m n : Text)
    → keyword k ++ codes ":" ++ m ≡ keyword l ++ codes ":" ++ n
    → (k ≡ l) × (m ≡ n)
unfolding keyword
keyword-injective table table m n h = (refl, cc)
keyword-injective field field m n h = (refl, cc)
keyword-injective index index m n h = (refl, cc)
keyword-injective event event m n h = (refl, cc)
keyword-injective _ _ m n h = absurd (omega (arith, ap first_code h))

-- Objects with the same key and the same definition are the same.
pub key-injective : (o p : SchemaObject) → key o ≡ key p → o.define_sql ≡ p.define_sql → o ≡ p
unfolding key
key-injective o p h e = let eq = keyword-injective o.kind p.kind o.name p.name h in cc (eq.0, eq.1)
