-- ===== src/Orm/Schema/Apply.antt =====
-- The meaning of the statements of a diff for the live objects (frust-kernel/orm/src/schema.rs, `diff`
-- and `SchemaDiff::statements`): a specification.
use frust.Prelude.{
  ◌≡◌, refl, ap, ◌∙◌, subst, ◌≢◌, ◌⊎◌, inl, inr, not, ◌&&◌, none, some, List, [], ◌∷◌, arith, leb,
  if◌then◌else◌, Bool-cases, All, In,
}
use frust.Prelude.Text.{Text, text_eq, text_eq_iff}
use frust.OrdMap.{get, insert, remove, get-insert, get-remove}
use frust.Orm.Schema.{
  table, kind_eq, SchemaObject, key, Objects, DroppedObject, SchemaDiff, insert_by_rank,
  sort_by_rank, applied, rank,
}

-- `DEFINE … OVERWRITE` of each object in turn.
unfoldable pub define_all : List SchemaObject → Objects → Objects
define_all [] m = m
define_all (o ∷ os) m = define_all os (insert (key o) o m)

-- The key that a dropped object had.
abbrev pub dropped_key : DroppedObject → Text
dropped_key d = key (record { kind = d.kind; name = d.name; define_sql = [] })

-- `REMOVE … IF EXISTS` of a dropped object; a table is left alone.
abbrev pub remove_one : DroppedObject → Objects → Objects
remove_one d m = elim d.kind [ table ↦ m | _ ↦ remove (dropped_key d) m ]

unfoldable pub remove_all : List DroppedObject → Objects → Objects
remove_all [] m = m
remove_all (d ∷ ds) m = remove_all ds (remove_one d m)

-- The live objects after the statements of `d`.
unfoldable pub apply_diff : SchemaDiff → Objects → Objects
unfolding define_all remove_all
apply_diff d live = remove_all d.drops (define_all (applied d) live)

abbrev pub OnlyAt : Text → SchemaObject → SchemaObject → Type 0
OnlyAt k o p = key p ≡ k → p ≡ o

abbrev pub NotAt : Text → SchemaObject → Type 0
NotAt k p = key p ≢ k

pub get-define_all_absent :
    (k : Text) (os : List SchemaObject) (m : Objects)
    → All (NotAt k) os
    → get k (define_all os m) ≡ get k m
unfolding define_all
get-define_all_absent k [] m h = refl
get-define_all_absent k (o ∷ os) m h =
    get-define_all_absent k os (insert (key o) o m) h.1
    ∙ ground (arith, get-insert (key o) k o m, text_eq_iff (key o) k, h.0)

define_step :
    (k : Text) (o p : SchemaObject) (os : List SchemaObject) (m : Objects)
    → (In o (p ∷ os) × (key o ≡ k)) ⊎ (get k m ≡ some o)
    → OnlyAt k o p
    → (In o os × (key o ≡ k)) ⊎ (get k (insert (key p) p m) ≡ some o)
define_step k o p os m h u = elim (Bool-cases (text_eq (key p) k)) [
  | inl e ↦ inr (ground (arith, get-insert (key p) k p m, text_eq_iff (key p) k, u))
  | inr e ↦ elim h [
    | inl (inl same, at) ↦ absurd (ground (arith, text_eq_iff (key p) k, ap key same))
    | inl (inr later, at) ↦ inl (later, at)
    | inr found ↦ inr (ground (arith, get-insert (key p) k p m))
  ]
]

-- An object that is the only one of its key is what the key finds afterwards.
pub get-define_all_present :
    (k : Text) (o : SchemaObject) (os : List SchemaObject) (m : Objects)
    → (In o os × (key o ≡ k)) ⊎ (get k m ≡ some o)
    → All (OnlyAt k o) os
    → get k (define_all os m) ≡ some o
unfolding define_all
get-define_all_present k o [] m (inl p) u = absurd p.0
get-define_all_present k o [] m (inr e) u = e
get-define_all_present k o (p ∷ os) m h u =
    get-define_all_present k o os (insert (key p) p m) (define_step k o p os m h u.0) u.1

-- The sort keeps what stands in the list.
module _ (P : SchemaObject → Type 0) where
  pub All-insert_by_rank :
      (o : SchemaObject) (os : List SchemaObject) → P o → All P os → All P (insert_by_rank o os)
  unfolding insert_by_rank
  All-insert_by_rank o [] p h = (p, tt)
  All-insert_by_rank o (q ∷ qs) p h = elim (Bool-cases (leb (rank o.kind) (rank q.kind))) [
    | inl e ↦ rw e (p, h)
    | inr e ↦ rw e (h.0, All-insert_by_rank o qs p h.1)
  ]

  pub All-sort_by_rank : (os : List SchemaObject) → All P os → All P (sort_by_rank os)
  unfolding sort_by_rank
  All-sort_by_rank [] h = tt
  All-sort_by_rank (o ∷ os) h = All-insert_by_rank o (sort_by_rank os) h.0 (All-sort_by_rank os h.1)

In-insert_by_rank :
    (a o : SchemaObject) (os : List SchemaObject) → In a (o ∷ os) → In a (insert_by_rank o os)
unfolding insert_by_rank
In-insert_by_rank a o [] h = h
In-insert_by_rank a o (q ∷ qs) h = elim (Bool-cases (leb (rank o.kind) (rank q.kind))) [
  | inl e ↦ rw e h
  | inr e ↦ rw e (elim h [
    | inl same ↦ inr (In-insert_by_rank a o qs (inl same))
    | inr (inl first) ↦ inl first
    | inr (inr later) ↦ inr (In-insert_by_rank a o qs (inr later))
  ])
]

pub In-sort_by_rank : (a : SchemaObject) (os : List SchemaObject) → In a os → In a (sort_by_rank os)
unfolding sort_by_rank
In-sort_by_rank a [] h = h
In-sort_by_rank a (o ∷ os) (inl e) = In-insert_by_rank a o (sort_by_rank os) (inl e)
In-sort_by_rank a (o ∷ os) (inr h) =
    In-insert_by_rank a o (sort_by_rank os) (inr (In-sort_by_rank a os h))

-- A dropped object that leaves the key `k` alone.
abbrev pub Spares : Text → DroppedObject → Type 0
Spares k d = dropped_key d ≡ k → d.kind ≡ table

remove_step :
    (k : Text) (d : DroppedObject) (m : Objects)
    → get k (remove_one d m)
      ≡ (if not (kind_eq d.kind table) && text_eq (dropped_key d) k then none else get k m)
remove_step k d m = ground (arith, get-remove (dropped_key d) k m)

pub get-remove_all_spared :
    (k : Text) (ds : List DroppedObject) (m : Objects)
    → All (Spares k) ds
    → get k (remove_all ds m) ≡ get k m
unfolding remove_all
get-remove_all_spared k [] m h = refl
get-remove_all_spared k (d ∷ ds) m h =
    get-remove_all_spared k ds _ h.1
    ∙ remove_step k d m
    ∙ ground (arith, text_eq_iff (dropped_key d) k, h.0)

pub get-remove_all-none :
    (k : Text) (ds : List DroppedObject) (m : Objects)
    → get k m ≡ none
    → get k (remove_all ds m) ≡ none
unfolding remove_all
get-remove_all-none k [] m h = h
get-remove_all-none k (d ∷ ds) m h = get-remove_all-none k ds _ (ground (arith, remove_step k d m))

pub get-remove_all_gone :
    (k : Text) (d : DroppedObject) (ds : List DroppedObject) (m : Objects)
    → In d ds
    → dropped_key d ≡ k
    → d.kind ≢ table
    → get k (remove_all ds m) ≡ none
unfolding remove_all
get-remove_all_gone k d [] m h at kind = absurd h
get-remove_all_gone k d (c ∷ ds) m (inl e) at kind = get-remove_all-none k ds _ (
    subst (λ x. get k (remove_one x m) ≡ none) e
      (ground (arith, remove_step k d m, text_eq_iff (dropped_key d) k)))
get-remove_all_gone k d (c ∷ ds) m (inr h) at kind = get-remove_all_gone k d ds _ h at kind
