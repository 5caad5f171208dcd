-- ===== src/Orm/Fleet/Plan.antt =====
-- The plan of a stage (frust-kernel/orm/src/fleet.rs, `plan_rollout`).
use frust.Prelude.{
  ℕ, zero, suc, ◌+◌, ◌≤◌, ◌≡◌, refl, sym, ap, ◌∙◌, subst, inl, inr, true, false, List, [], ◌∷◌,
  arith, Bool-cases, length, take, is_empty, All, In,
}
use frust.Prelude.Text.{
  Text, text_eq_iff, text_ltb_irrefl, text_ltb_trans, text_ltb_total, contains, contains-In,
}
use frust.Prelude.Result.{ok}
use mathlib.Core.List.{Permᴰ}
use frust.Orm.Fleet.{
  FleetStage, canary, rollout, FleetRolloutPlan, fnv1a, insert_text, sort_texts, has_twins, done_of,
  undone_of, has_id, targets_of, make_plan, plan_sorted, plan_rollout,
}

pub undone-empty :
    (done ts : List Text) → is_empty (undone_of done ts) ≡ true → All (λ t. In t done) ts
undone-empty done [] h = tt
undone-empty done (t ∷ ts) h = elim (Bool-cases (contains done t)) [
  | inl c ↦ (contains-In done t c, undone-empty done ts (ground arith))
  | inr c ↦ absurd (ground arith)
]

length-take : (n : ℕ) {A : Type 0} (xs : List A) → n ≤ length xs → length (take n xs) ≡ n
length-take zero xs h = refl
length-take (suc n) [] h = absurd (omega arith)
length-take (suc n) (x ∷ xs) h = omega (arith, length-take n xs)

-- The checks that a plan has passed, and the plan.
abbrev pub Passed : FleetStage → ℕ → List Text → List Text → List ℕ → FleetRolloutPlan → Type 0
Passed stage n active done evidence p =
    (make_plan stage n active done ≡ p)
    × (has_twins active ≡ false)
    × (n ≤ length active)
    × (stage ≡ rollout → has_id evidence (fnv1a (take n active)) ≡ true)
    × (stage ≡ rollout → is_empty (undone_of done (take n active)) ≡ true)

pub plan_sorted-Passed :
    (stage : FleetStage) (n : ℕ) (active done : List Text) (evidence : List ℕ)
    (p : FleetRolloutPlan)
    → plan_sorted stage n active done evidence ≡ ok p
    → Passed stage n active done evidence p
unfolding plan_sorted
plan_sorted-Passed stage n active done evidence p h = ground arith

-- A rollout that is planned has evidence of its canary cohort, every tenant of that cohort is done,
-- and the whole sorted fleet is its target.
pub plan_rollout-guarded :
    (n : ℕ) (active done : List Text) (evidence : List ℕ) (p : FleetRolloutPlan)
    → plan_rollout rollout n active done evidence ≡ ok p
    → (has_id evidence (fnv1a (take n p.active)) ≡ true)
      × All (λ t. In t done) (take n p.active)
      × (p.active ≡ sort_texts active)
      × (p.targets ≡ p.active)
unfolding plan_rollout
plan_rollout-guarded n active done evidence p h =
    let passed = plan_sorted-Passed rollout n (sort_texts active) done evidence p h in
    let same : sort_texts active ≡ p.active = ap (λ (q : FleetRolloutPlan). q.active) passed.0 in
    (
      subst (λ a. has_id evidence (fnv1a (take n a)) ≡ true) same (passed.3 refl),
      subst (λ a. All (λ t. In t done) (take n a)) same
          (undone-empty done (take n (sort_texts active)) (passed.4 refl)),
      sym same,
      ap (λ (q : FleetRolloutPlan). q.targets) (sym passed.0) ∙ same,
    )

-- A canary pass that is planned has exactly the first `n` of the sorted active tenants for its
-- targets.
pub plan_canary-targets :
    (n : ℕ) (active done : List Text) (evidence : List ℕ) (p : FleetRolloutPlan)
    → plan_rollout canary n active done evidence ≡ ok p
    → (p.targets ≡ take n (sort_texts active)) × (length p.targets ≡ n)
unfolding plan_rollout
plan_canary-targets n active done evidence p h =
    let passed = plan_sorted-Passed canary n (sort_texts active) done evidence p h in
    let targets : p.targets ≡ take n (sort_texts active) =
      ap (λ (q : FleetRolloutPlan). q.targets) (sym passed.0) in
    (targets, ap length targets ∙ length-take n (sort_texts active) passed.2)

filter-split :
    (done ts : List Text) → length (done_of done ts) + length (undone_of done ts) ≡ length ts
filter-split done [] = refl
filter-split done (t ∷ ts) = ground (arith, filter-split done ts)

-- Every target of a plan is either completed or pending, by whether it is in the done set.
pub plan_rollout-partition :
    (stage : FleetStage) (n : ℕ) (active done : List Text) (evidence : List ℕ)
    (p : FleetRolloutPlan)
    → plan_rollout stage n active done evidence ≡ ok p
    → length p.completed + length p.pending ≡ length p.targets
unfolding plan_rollout
plan_rollout-partition stage n active done evidence p h =
    let passed = plan_sorted-Passed stage n (sort_texts active) done evidence p h in
    subst (λ (q : FleetRolloutPlan). length q.completed + length q.pending ≡ length q.targets)
      passed.0 (filter-split done (targets_of stage n (sort_texts active)))

insert_text_swap :
    (t u : Text) (ts : List Text)
    → insert_text t (insert_text u ts) ≡ insert_text u (insert_text t ts)
unfolding insert_text
insert_text_swap t u [] = ground (
  arith,
  text_eq_iff t u,
  text_eq_iff u t,
  text_ltb_total t u,
  text_ltb_trans t u t,
  text_ltb_irrefl t,
)
insert_text_swap t u (v ∷ vs) = ground (
  arith,
  insert_text_swap t u vs,
  text_eq_iff t u,
  text_eq_iff u t,
  text_eq_iff v t,
  text_eq_iff v u,
  text_ltb_total t u,
  text_ltb_trans t u t,
  text_ltb_irrefl t,
  text_ltb_trans v t u,
  text_ltb_trans v u t,
  text_ltb_trans u v t,
  text_ltb_trans t v u,
  text_ltb_total u v,
  text_ltb_total t v,
)

sort_texts-perm : {a b : List Text} → Permᴰ a b → sort_texts a ≡ sort_texts b
unfolding sort_texts
sort_texts-perm Permᴰ.nil = refl
sort_texts-perm (Permᴰ.cons {a = x} e p) = rw (e, sort_texts-perm p)
sort_texts-perm (Permᴰ.swap {a = x} {b = y} {l = l} e f) =
    rw (sym e, sym f) (insert_text_swap x y (sort_texts l))
sort_texts-perm (Permᴰ.trans p q) = sort_texts-perm p ∙ sort_texts-perm q

-- The plan, or its refusal, does not depend on the order in which the tenants are listed.
pub plan_rollout-perm :
    (stage : FleetStage) (n : ℕ) (done : List Text) (evidence : List ℕ) {a b : List Text}
    → Permᴰ a b
    → plan_rollout stage n a done evidence ≡ plan_rollout stage n b done evidence
unfolding plan_rollout
plan_rollout-perm stage n done evidence p = rw (sort_texts-perm p)
