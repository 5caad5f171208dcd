-- ===== src/Kernel/Cache/Fresh.antt =====
-- How new the served metadata are (frust-kernel/kernel/src/broker.rs, `load_doctype`).
use frust.Prelude.{
  ℕ, ◌+◌, ◌^◌, ◌≤◌, ◌<◌, ◌≡◌, refl, subst, inl, inr, none, some, arith, ◌==◌, if◌then◌else◌, ==_iff,
  Bool-cases,
}
use frust.Kernel.Cache.{
  Entry, probe, fill, next_generation, Phase, idle, entered, missed, loaded, served, World,
  set_phase, with_entry, after_probe, step_of, invalidated, Reach, begin, request, write,
  invalidate,
}

-- A generation that has begun, and a version that is not older than what was stored then
abbrev IsSince : ℕ → (ℕ → ℕ) → ℕ → ℕ → Type 0
IsSince now began_with gen meta = (gen ≤ now) × (began_with gen ≤ meta)

abbrev IsEntryFresh : ℕ → (ℕ → ℕ) → Entry → Type 0
IsEntryFresh now f none = Unit
IsEntryFresh now f (some (gen, meta)) = IsSince now f gen meta

abbrev IsPhaseFresh : ℕ → (ℕ → ℕ) → Phase → Type 0
IsPhaseFresh now f idle = Unit
IsPhaseFresh now f (entered gen) = gen ≤ now
IsPhaseFresh now f (missed gen) = gen ≤ now
IsPhaseFresh now f (loaded gen meta) = IsSince now f gen meta
IsPhaseFresh now f (served gen meta) = IsSince now f gen meta

abbrev IsFresh : World → Type 0
IsFresh w =
    ((gen : ℕ) → gen ≤ w.generation → w.began_with gen ≤ w.stored)
    × IsEntryFresh w.generation w.began_with w.entry
    × ((i : ℕ) → IsPhaseFresh w.generation w.began_with (w.phase i))

module _ (now : ℕ) (f : ℕ → ℕ) where
  set_phase-fresh :
      (phase : ℕ → Phase) (i : ℕ) (p : Phase)
      → IsPhaseFresh now f p
      → ((j : ℕ) → IsPhaseFresh now f (phase j))
      → (j : ℕ) → IsPhaseFresh now f (set_phase phase i p j)
  set_phase-fresh phase i p h k j = elim (Bool-cases (j == i)) [
    | inl e ↦ rw e h
    | inr e ↦ rw e (k j)
  ]

  probe-fresh :
      (gen : ℕ) (e : Entry)
      → gen ≤ now
      → IsEntryFresh now f e
      → IsPhaseFresh now f (after_probe gen (probe gen e))
  unfolding probe
  probe-fresh gen none h k = h
  probe-fresh gen (some (cached, meta)) h k = elim (Bool-cases (cached == gen)) [
    | inl e ↦ rw e (subst (λ g. IsSince now f g meta) ((==_iff cached gen).0 e) k)
    | inr e ↦ rw e h
  ]

with_entry-IsFresh :
    (w : World) (e : Entry) (i : ℕ) (p : Phase)
    → IsFresh w
    → IsEntryFresh w.generation w.began_with e
    → IsPhaseFresh w.generation w.began_with p
    → IsFresh (with_entry w e i p)
with_entry-IsFresh w e i p (a, b, c) h k =
    (a, h, set_phase-fresh w.generation w.began_with w.phase i p k c)

step_of-IsFresh :
    (p : Phase) (i : ℕ) (w : World) → w.phase i ≡ p → IsFresh w → IsFresh (step_of p i w)
unfolding step_of fill
step_of-IsFresh idle i w e h =
    with_entry-IsFresh w w.entry i (entered w.generation) h h.1 (omega arith)
step_of-IsFresh (entered gen) i w e h =
    with_entry-IsFresh w w.entry i (after_probe gen (probe gen w.entry)) h h.1 (
      probe-fresh w.generation w.began_with gen w.entry
        (subst (IsPhaseFresh w.generation w.began_with) e (h.2 i)) h.1)
step_of-IsFresh (missed gen) i w e h =
    let known = subst (IsPhaseFresh w.generation w.began_with) e (h.2 i) in
    with_entry-IsFresh w w.entry i (loaded gen w.stored) h h.1 (known, h.0 gen known)
step_of-IsFresh (loaded gen meta) i w e h =
    let known = subst (IsPhaseFresh w.generation w.began_with) e (h.2 i) in
    with_entry-IsFresh w (some (gen, meta)) i (served gen meta) h known known
step_of-IsFresh (served gen meta) i w e h = h

-- A new generation leaves what is known of those before it.
module _ (now new v : ℕ) (f : ℕ → ℕ) (next : now < new) where
  abbrev extended : ℕ → ℕ
  extended g = if g == new then v else f g

  extended-old : (g m : ℕ) → g ≤ now → f g ≤ m → extended g ≤ m
  extended-old g m h k = ground (arith, h, k, next)

  entry-extended : (e : Entry) → IsEntryFresh now f e → IsEntryFresh new extended e
  entry-extended none h = tt
  entry-extended (some (gen, meta)) (a, b) = (omega arith, extended-old gen meta a b)

  phase-extended : (p : Phase) → IsPhaseFresh now f p → IsPhaseFresh new extended p
  phase-extended idle h = tt
  phase-extended (entered gen) h = omega arith
  phase-extended (missed gen) h = omega arith
  phase-extended (loaded gen meta) (a, b) = (omega arith, extended-old gen meta a b)
  phase-extended (served gen meta) (a, b) = (omega arith, extended-old gen meta a b)

  stored-extended :
      ((g : ℕ) → g ≤ now → f g ≤ v) → new ≤ now + 1 → (g : ℕ) → g ≤ new → extended g ≤ v
  stored-extended h k g l = elim (Bool-cases (g == new)) [
    | inl e ↦ rw e (omega arith)
    | inr e ↦ rw e (h g (ground (arith, e, k, l)))
  ]

invalidated-IsFresh : (w : World) → w.generation + 1 < 2 ^ 64 → IsFresh w → IsFresh (invalidated w)
unfolding invalidated
invalidated-IsFresh w l (a, b, c) =
    let next : next_generation w.generation ≡ w.generation + 1 =
      unfold next_generation in omega arith in
    let now = w.generation in
    let new = next_generation w.generation in
    (
      stored-extended now new w.stored w.began_with (omega arith) a (omega arith),
      entry-extended now new w.stored w.began_with (omega arith) w.entry b,
      λ i. phase-extended now new w.stored w.began_with (omega arith) (w.phase i) (c i),
    )

Reach-IsFresh : (w : World) → Reach w → IsFresh w
Reach-IsFresh w begin = ((λ g h. omega arith), tt, λ i. tt)
Reach-IsFresh w (request {w = v} i r) = step_of-IsFresh (v.phase i) i v refl (Reach-IsFresh v r)
Reach-IsFresh w (write {w = v} r) =
    let (a, b, c) = Reach-IsFresh v r in ((λ g h. (let old = a g h in omega arith)), b, c)
Reach-IsFresh w (invalidate {w = v} l r) = invalidated-IsFresh v l (Reach-IsFresh v r)

-- However requests, writes and invalidations interleave, the metadata that a request is served are at
-- least as new as what was stored when the generation that the request read had begun.
pub Reach-served :
    (w : World) (i gen meta : ℕ) → Reach w → w.phase i ≡ served gen meta → w.began_with gen ≤ meta
Reach-served w i gen meta r e =
    (subst (IsPhaseFresh w.generation w.began_with) e ((Reach-IsFresh w r).2 i)).1
