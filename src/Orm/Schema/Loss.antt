-- ===== src/Orm/Schema/Loss.antt =====
-- Empty diffs, drops that lose data, and the order of statements (frust-kernel/orm/src/schema.rs).
use frust.Prelude.{
  ◌≤◌, ◌≡◌, refl, sym, ap, ◌∙◌, ◌≢◌, inl, inr, true, some, List, [], ◌∷◌, arith, leb, leb→le,
  Bool-cases, Option-cases, is_empty, All, All-map, In,
}
use frust.Prelude.Text.{Text, codes, text_eq, text_eq_sound, text_eq_refl}
use frust.OrdMap.{IsSorted, get, In-get}
use frust.Orm.Schema.{
  field, rank, SchemaObject, key-injective, Objects, SchemaSnapshot, DroppedObject, SchemaDiff,
  is_empty_diff, creates_of, alters_of, drops_of, diff, destructive, named, dropped_names,
  insert_by_rank, sort_by_rank, IsWellFormed,
}
use frust.Orm.Schema.Apply.{All-insert_by_rank, apply_diff}
use frust.Orm.Schema.Loops.{In-creates, In-alters, In-drops}
use frust.Orm.Schema.Reach.{get-key, apply_diff-diff}

-- The entries of `new` are found in `old` with their text.
abbrev Found : Objects → Objects → Type 0
Found old [] = Unit
Found old ((k, o) ∷ rest) = (get k old ≡ some o) × Found old rest

creates-Found : (old new : Objects) → Found old new → creates_of old new ≡ []
unfolding creates_of
creates-Found old [] h = refl
creates-Found old ((k, o) ∷ new) h = ground (arith, creates-Found old new)

alters-Found : (old new : Objects) → Found old new → alters_of old new ≡ []
unfolding alters_of
alters-Found old [] h = refl
alters-Found old ((k, o) ∷ new) h = ground (arith, alters-Found old new, text_eq_refl o.define_sql)

drops-Found : (new old : Objects) → Found new old → drops_of new old ≡ []
unfolding drops_of
drops-Found new [] h = refl
drops-Found new ((k, o) ∷ old) h = ground (arith, drops-Found new old)

Found-part :
    (m part : Objects)
    → ((k : Text) (o : SchemaObject) → In (k, o) part → get k m ≡ some o)
    → Found m part
Found-part m [] h = tt
Found-part m ((k, o) ∷ part) h = (h k o (inl refl), Found-part m part (λ j p q. h j p (inr q)))

In-is_empty : {A : Type 0} (a : A) (xs : List A) → is_empty xs ≡ true → ¬ (In a xs)
In-is_empty a [] e h = h
In-is_empty a (x ∷ xs) e h = cc

-- A snapshot differs in nothing from itself, whatever its table is called.
pub diff_self :
    (s t : SchemaSnapshot)
    → IsSorted s.objects
    → s.objects ≡ t.objects
    → is_empty_diff (diff s t) ≡ true
unfolding diff
diff_self s t w e = rw (← e) (
    let all = Found-part s.objects s.objects (λ k o p. In-get k o s.objects w p) in
    ground (
      arith,
      creates-Found s.objects s.objects all,
      alters-Found s.objects s.objects all,
      drops-Found s.objects s.objects all,
    ))

nothing-In :
    (d : SchemaDiff)
    → is_empty_diff d ≡ true
    → ((o : SchemaObject) → ¬ (In o d.creates))
      × ((o : SchemaObject) → ¬ (In o d.alters))
      × ((o : DroppedObject) → ¬ (In o d.drops))
nothing-In d e = (
  (λ o. In-is_empty o d.creates (ground arith)),
  (λ o. In-is_empty o d.alters (ground arith)),
  (λ o. In-is_empty o d.drops (ground arith)),
)

-- Of two well-formed snapshots the diff is empty only if every key finds the same on both sides.
pub is_empty_diff-get :
    (old new : SchemaSnapshot)
    → IsWellFormed old
    → IsWellFormed new
    → is_empty_diff (diff old new) ≡ true
    → (k : Text) → get k old.objects ≡ get k new.objects
unfolding diff
is_empty_diff-get old new wo wn e k =
    let none_in = nothing-In (diff old new) e in
    elim (Option-cases (get k old.objects)) [
      | inl a ↦ elim (Option-cases (get k new.objects)) [
        | inl h ↦ a ∙ sym h
        | inr (n, h) ↦ absurd (none_in.0 n (In-creates old.objects k new.objects h a))
      ]
      | inr (o, a) ↦ elim (Option-cases (get k new.objects)) [
        | inl h ↦ absurd (none_in.2 _ (In-drops new.objects k old.objects a h))
        | inr (n, h) ↦ elim (Bool-cases (text_eq o.define_sql n.define_sql)) [
          | inl t ↦
              a
              ∙ ap some (
                  key-injective o n
                    (get-key k old.objects wo.keyed a ∙ sym (get-key k new.objects wn.keyed h))
                    (text_eq_sound o.define_sql n.define_sql t))
              ∙ sym h
          | inr t ↦ absurd (none_in.1 n (In-alters old.objects k new.objects h a t))
        ]
      ]
    ]

named_drop :
    (d : DroppedObject) (ds : List DroppedObject)
    → In d ds
    → d.kind ≡ field
    → named (codes "REMOVE FIELD ") (dropped_names field ds) ≢ []
named_drop d [] h f e = h
named_drop d (c ∷ ds) (inl same) f e = ground (arith, ap (λ (x : DroppedObject). x.kind) same)
named_drop d (c ∷ ds) (inr h) f e = ground (arith, named_drop d ds h f)

-- If no drop counts as destructive, every field of the old snapshot is still there after the
-- statements have run.
pub destructive-fields_kept :
    (old new : SchemaSnapshot)
    → IsWellFormed old
    → IsWellFormed new
    → destructive (diff old new) ≡ []
    → (k : Text) (o : SchemaObject) → get k old.objects ≡ some o
    → o.kind ≡ field
    → (n : SchemaObject) × (get k (apply_diff (diff old new) old.objects) ≡ some n)
unfolding destructive diff
destructive-fields_kept old new wo wn e k o h f = elim (Option-cases (get k new.objects)) [
  | inl g ↦
      absurd (
        named_drop _ (drops_of new.objects old.objects) (In-drops new.objects k old.objects h g) f
          e)
  | inr (n, g) ↦ (n, apply_diff-diff old new wo wn k old.objects refl ∙ rw (h, g))
]

-- The ranks do not fall along the list.
abbrev pub IsRanked : List SchemaObject → Type 0
IsRanked [] = Unit
IsRanked (o ∷ os) = All (λ (p : SchemaObject). rank o.kind ≤ rank p.kind) os × IsRanked os

insert_by_rank-IsRanked :
    (o : SchemaObject) (os : List SchemaObject) → IsRanked os → IsRanked (insert_by_rank o os)
unfolding insert_by_rank
insert_by_rank-IsRanked o [] h = (tt, tt)
insert_by_rank-IsRanked o (p ∷ ps) h = elim (Bool-cases (leb (rank o.kind) (rank p.kind))) [
  | inl e ↦ rw e ((leb→le _ _ e, All-map (λ q le. omega (arith, leb→le _ _ e)) ps h.0), h)
  | inr e ↦ rw e (
    All-insert_by_rank (λ (q : SchemaObject). rank p.kind ≤ rank q.kind) o ps (ground arith) h.0,
    insert_by_rank-IsRanked o ps h.1,
  )
]

-- Sorting leaves the objects in the order of their ranks: tables, then fields, indexes and events.
pub sort_by_rank-IsRanked : (os : List SchemaObject) → IsRanked (sort_by_rank os)
unfolding sort_by_rank
sort_by_rank-IsRanked [] = tt
sort_by_rank-IsRanked (o ∷ os) =
    insert_by_rank-IsRanked o (sort_by_rank os) (sort_by_rank-IsRanked os)
