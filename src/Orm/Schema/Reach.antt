-- ===== src/Orm/Schema/Reach.antt =====
-- A live schema behind the statements of `diff(old, new)` (frust-kernel/orm/src/schema.rs).
use frust.Prelude.{
  ◌≡◌, refl, sym, ap, ◌∙◌, ◌⊎◌, inl, inr, Option, none, some, [], ◌∷◌, ◌++◌, arith, if◌then◌else◌,
  Bool-cases, Option-cases, All-append, In, In-append_left, In-append_right,
}
use frust.Prelude.Text.{Text, text_eq, text_eq_sound, text_eq_iff}
use frust.OrdMap.{get}
use frust.Orm.Schema.{
  table, kind_eq, SchemaObject, key, key-injective, keyword-injective, Objects, SchemaSnapshot,
  creates_of, alters_of, drops_of, diff, applied, Keyed, IsWellFormed,
}
use frust.Orm.Schema.Apply.{
  define_all, apply_diff, OnlyAt, NotAt, get-define_all_absent, get-define_all_present,
  All-sort_by_rank, In-sort_by_rank, get-remove_all_spared, get-remove_all-none,
  get-remove_all_gone,
}
use frust.Orm.Schema.Loops.{
  creates-NotAt, alters-NotAt, creates-OnlyAt, alters-OnlyAt, In-creates, In-alters,
  drops-Spares_present, drops-Spares_table, In-drops, dropped_key-key,
}

pub get-key : (k : Text) {o : SchemaObject} (m : Objects) → Keyed m → get k m ≡ some o → key o ≡ k
unfolding get
get-key k [] w h = cc
get-key k {o} ((j, p) ∷ m) w h = ground (arith, get-key k {o = o} m, text_eq_iff j k)

key-kind : (o p : SchemaObject) → key o ≡ key p → o.kind ≡ p.kind
unfolding key
key-kind o p h = (keyword-injective o.kind p.kind o.name p.name h).0

-- What a migration leaves at a key, from what stood there and what the new snapshot asks for: the
-- new object, but a table stays.
abbrev pub wanted : Option SchemaObject → Option SchemaObject → Option SchemaObject
wanted (some o) none = if kind_eq o.kind table then some o else none
wanted none none = none
wanted old (some n) = some n

wanted-some : (old : Option SchemaObject) (n : SchemaObject) → some n ≡ wanted old (some n)
wanted-some none n = refl
wanted-some (some o) n = refl

module _ (old new : SchemaSnapshot) (wo : IsWellFormed old) (wn : IsWellFormed new) (k : Text)
    (live : Objects) (same : get k live ≡ get k old.objects) where
  defs-present :
      (o : SchemaObject)
      → get k new.objects ≡ some o
      → (In o (applied (diff old new)) × (key o ≡ k)) ⊎ (get k live ≡ some o)
      → get k (apply_diff (diff old new) live) ≡ some o
  unfolding apply_diff diff
  defs-present o h at =
      get-remove_all_spared k (drops_of new.objects old.objects) _
        (drops-Spares_present new.objects k old.objects wo.keyed h)
      ∙ get-define_all_present k o (applied (diff old new)) live at (
          All-sort_by_rank (OnlyAt k o)
            (creates_of old.objects new.objects ++ alters_of old.objects new.objects)
            (All-append (OnlyAt k o) (creates_of old.objects new.objects) _
              (creates-OnlyAt old.objects k new.objects wn.sorted wn.keyed h)
              (alters-OnlyAt old.objects k new.objects wn.sorted wn.keyed h)))

  defs-absent :
      get k new.objects ≡ none
      → get k (define_all (applied (diff old new)) live) ≡ get k old.objects
  unfolding diff
  defs-absent h =
      get-define_all_absent k (applied (diff old new)) live (
        All-sort_by_rank (NotAt k)
          (creates_of old.objects new.objects ++ alters_of old.objects new.objects)
          (All-append (NotAt k) (creates_of old.objects new.objects) _
            (creates-NotAt old.objects k new.objects wn.keyed h)
            (alters-NotAt old.objects k new.objects wn.keyed h)))
      ∙ same

  -- A key that the new snapshot has.
  reach_present :
      (n : SchemaObject)
      → get k new.objects ≡ some n
      → get k (apply_diff (diff old new) live) ≡ some n
  unfolding diff
  reach_present n h =
      let at = get-key k new.objects wn.keyed h in
      elim (Option-cases (get k old.objects)) [
        | inl a ↦ defs-present n h (
            inl (
              In-sort_by_rank n _ (In-append_left n _ _ (In-creates old.objects k new.objects h a)),
              at,
            ))
        | inr (p, a) ↦ elim (Bool-cases (text_eq p.define_sql n.define_sql)) [
          | inl e ↦ defs-present n h (
              inr (
                same
                ∙ a
                ∙ ap some (
                    key-injective p n (get-key k old.objects wo.keyed a ∙ sym at)
                      (text_eq_sound p.define_sql n.define_sql e))))
          | inr e ↦ defs-present n h (
              inl (
                In-sort_by_rank n _ (
                    In-append_right n (creates_of old.objects new.objects) _
                      (In-alters old.objects k new.objects h a e)),
                at,
              ))
        ]
      ]

  -- A key that the new snapshot lacks.
  reach_dropped :
      (o : SchemaObject)
      → get k new.objects ≡ none
      → get k old.objects ≡ some o
      → get k (apply_diff (diff old new) live) ≡ (if kind_eq o.kind table then some o else none)
  unfolding diff apply_diff
  reach_dropped o h a =
      let at = get-key k old.objects wo.keyed a in
      elim (Bool-cases (kind_eq o.kind table)) [
        | inl e ↦ rw e (
            get-remove_all_spared k (drops_of new.objects old.objects) _ (
              drops-Spares_table new.objects k old.objects wo.keyed
                (λ p q. key-kind p o (q ∙ sym at) ∙ ground arith))
            ∙ defs-absent h
            ∙ a)
        | inr e ↦ rw e (
            get-remove_all_gone k (record { kind = o.kind; name = o.name })
              (drops_of new.objects old.objects) _ (In-drops new.objects k old.objects a h)
              (dropped_key-key o ∙ at) (λ q. ground arith))
      ]

  -- The statements of the diff of two well-formed snapshots, run on a schema at the old one, leave
  -- at each key the object of the new one, and nothing where it has none, but for a table, which
  -- stays.
  pub apply_diff-diff :
      get k (apply_diff (diff old new) live) ≡ wanted (get k old.objects) (get k new.objects)
  unfolding apply_diff diff
  apply_diff-diff = elim (Option-cases (get k new.objects)) [
    | inl h ↦ elim (Option-cases (get k old.objects)) [
      | inl a ↦
          rw (h, a) (get-remove_all-none k (drops_of new.objects old.objects) _ (defs-absent h ∙ a))
      | inr (o, a) ↦ rw (h, a) (reach_dropped o h a)
    ]
    | inr (n, h) ↦ rw h (reach_present n h ∙ wanted-some (get k old.objects) n)
  ]
