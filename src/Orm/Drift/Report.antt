-- ===== src/Orm/Drift/Report.antt =====
-- What a clean report says (frust-kernel/orm/src/drift.rs, `detect_scope_drift`).
use frust.Prelude.{
  ℕ, ◌≡◌, refl, sym, ap, ◌∙◌, ◌↔◌, inl, inr, Bool, true, false, not, ◌||◌, Option, none, some, List,
  [], ◌∷◌, arith, if◌then◌else◌, Bool-cases, filter, is_empty, All, In,
}
use frust.Prelude.Text.{Text, contains, contains-In, In-contains}
use frust.Prelude.Search.{In-filter, filter-In, In-is_empty}
use frust.Orm.Schema.{SchemaSnapshot}
use frust.Orm.Drift.{
  ResourceDrift, keys, difference, resource_drift, drifts, insert_by_name, sort_by_name,
  detect_scope_drift,
}

-- The same objects, by their keys
abbrev pub HasSameKeys : SchemaSnapshot → SchemaSnapshot → Type 0
HasSameKeys recorded live =
    (k : Text) → contains (keys recorded.objects) k ≡ contains (keys live.objects) k

difference-covered :
    (a b : List Text)
    → is_empty (difference a b) ≡ true
    → (k : Text) → contains a k ≡ true
    → contains b k ≡ true
unfolding difference
difference-covered a b h k i = elim (Bool-cases (contains b k)) [
  | inl e ↦ e
  | inr e ↦ absurd (
      clash (
        sym h
        ∙ In-is_empty k (filter (λ j. not (contains b j)) a)
            (filter-In (λ j. not (contains b j)) k a (contains-In a k i) (rw e refl))))
]
  where
    clash : ¬ (true ≡ false)
    clash c = cc

covered-difference :
    (a b : List Text)
    → ((k : Text) → contains a k ≡ true → contains b k ≡ true)
    → is_empty (difference a b) ≡ true
unfolding difference
covered-difference a b h = nothing (filter (λ j. not (contains b j)) a) (λ k i.
    let (j, e) = In-filter (λ j. not (contains b j)) k a i in
    clash (contains b k) (h k (In-contains a k j)) e)
  where
    unequal : ¬ (true ≡ false)
    unequal u = cc

    clash : (c : Bool) → c ≡ true → ¬ (not c ≡ true)
    clash c e f = unequal (sym f ∙ ap not e)

    nothing : (xs : List Text) → ((k : Text) → ¬ (In k xs)) → is_empty xs ≡ true
    nothing [] n = refl
    nothing (x ∷ xs) n = absurd (n x (inl refl))

-- The test of a report
none-guard :
    {A : Type 0} (a b : Bool) (x : A)
    → (if not a || not b then some x else none) ≡ none
    → (a ≡ true) × (b ≡ true)
none-guard true true x h = (refl, refl)
none-guard true false x h = cc
none-guard false b x h = cc

bool_of_iff : (a b : Bool) → (a ≡ true → b ≡ true) → (b ≡ true → a ≡ true) → a ≡ b
bool_of_iff true b f g = sym (f refl)
bool_of_iff false true f g = g refl
bool_of_iff false false f g = refl

resource_drift-none :
    (name : Text) (recorded live : SchemaSnapshot)
    → resource_drift name recorded live ≡ none
    → HasSameKeys recorded live
unfolding resource_drift
resource_drift-none name recorded live h k =
    let stored = keys recorded.objects in
    let present = keys live.objects in
    let (unexpected, missing) =
      none-guard (is_empty (difference present stored)) (is_empty (difference stored present)) _
        h in
    bool_of_iff (contains stored k) (contains present k)
      (difference-covered stored present missing k) (difference-covered present stored unexpected k)

HasSameKeys-drift :
    (name : Text) (recorded live : SchemaSnapshot)
    → HasSameKeys recorded live
    → resource_drift name recorded live ≡ none
unfolding resource_drift
HasSameKeys-drift name recorded live h =
    let stored = keys recorded.objects in
    let present = keys live.objects in
    rw
      (
        covered-difference present stored (λ k i. h k ∙ i),
        covered-difference stored present (λ k i. sym (h k) ∙ i),
      )
      refl

-- Every resource with a table has, live, the objects that were recorded.
abbrev pub IsAsRecorded : (Text → SchemaSnapshot) → List (Text × (ℕ × SchemaSnapshot)) → Type 0
IsAsRecorded live history =
    All (λ e. is_empty e.1.1.table_name ≡ false → HasSameKeys e.1.1 (live e.1.1.table_name)) history

-- One resource in front of the others
reported-none :
    (skipped : Bool) (r : Option ResourceDrift) (rest : List ResourceDrift)
    → is_empty (if skipped then rest else elim r [ none ↦ rest | some d ↦ d ∷ rest ]) ≡ true
    → (is_empty rest ≡ true) × (skipped ≡ false → r ≡ none)
reported-none true r rest h = (h, λ e. cc)
reported-none false none rest h = (h, λ e. refl)
reported-none false (some d) rest h = cc

none-reported :
    (skipped : Bool) (r : Option ResourceDrift) (rest : List ResourceDrift)
    → is_empty rest ≡ true
    → (skipped ≡ false → r ≡ none)
    → is_empty (if skipped then rest else elim r [ none ↦ rest | some d ↦ d ∷ rest ]) ≡ true
none-reported true r rest h k = h
none-reported false none rest h k = h
none-reported false (some d) rest h k = absurd (refused (k refl))
  where
    refused : ¬ (some d ≡ none)
    refused c = cc

module _ (live : Text → SchemaSnapshot) where
  clean-recorded :
      (history : List (Text × (ℕ × SchemaSnapshot)))
      → is_empty (drifts live history) ≡ true
      → IsAsRecorded live history
  unfolding drifts
  clean-recorded [] h = tt
  clean-recorded ((name, (version, snapshot)) ∷ history) h =
      let (rest, clean) =
        reported-none (is_empty snapshot.table_name)
          (resource_drift name snapshot (live snapshot.table_name)) (drifts live history) h in
      (
        (λ e. resource_drift-none name snapshot (live snapshot.table_name) (clean e)),
        clean-recorded history rest,
      )

  recorded-clean :
      (history : List (Text × (ℕ × SchemaSnapshot)))
      → IsAsRecorded live history
      → is_empty (drifts live history) ≡ true
  unfolding drifts
  recorded-clean [] h = refl
  recorded-clean ((name, (version, snapshot)) ∷ history) (h, k) =
      none-reported (is_empty snapshot.table_name)
        (resource_drift name snapshot (live snapshot.table_name)) (drifts live history)
        (recorded-clean history k)
        (λ e. HasSameKeys-drift name snapshot (live snapshot.table_name) (h e))

is_empty-insert :
    (d : ResourceDrift) (ds : List ResourceDrift) → is_empty (insert_by_name d ds) ≡ false
unfolding insert_by_name
is_empty-insert d [] = refl
is_empty-insert d (e ∷ es) = ground arith

is_empty-sort : (ds : List ResourceDrift) → is_empty (sort_by_name ds) ≡ is_empty ds
unfolding sort_by_name
is_empty-sort [] = refl
is_empty-sort (d ∷ ds) = is_empty-insert d (sort_by_name ds)

-- A drift report is clean exactly when every resource of the history that has a table has, in the live
-- schema, the objects that were recorded last, by their keys.
pub detect_scope_drift-clean_iff :
    (live : Text → SchemaSnapshot) (history : List (Text × (ℕ × SchemaSnapshot)))
    → (is_empty (detect_scope_drift live history) ≡ true) ↔ IsAsRecorded live history
unfolding detect_scope_drift
detect_scope_drift-clean_iff live history = (
  λ h. clean-recorded live history (sym (is_empty-sort (drifts live history)) ∙ h),
  λ h. is_empty-sort (drifts live history) ∙ recorded-clean live history h,
)
