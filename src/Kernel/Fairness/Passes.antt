-- ===== src/Kernel/Fairness/Passes.antt =====
-- The passes of a claim round (frust-kernel/kernel/src/fairness.rs, `fair_round`).
use frust.Prelude.{
  ℕ, zero, suc, ◌+◌, ◌-◌, ◌%◌, ◌<◌, ◌≡◌, refl, ap, inl, inr, false, none, some, List, [], ◌∷◌, ◌++◌,
  map, arith, ltb, leb, Bool-cases, Option-cases, length, take, drop, get_elem?, is_empty,
  length-append,
}
use frust.Prelude.Text.{Text}
use frust.Kernel.Fairness.{
  Slot, Groups, add_job, by_tenant, rotated, next_job, pass, passes, slot_of, slots_of, fair_round,
}

-- How many jobs are left.
unfoldable pub left_over : List Slot → ℕ
left_over [] = 0
left_over (s ∷ slots) = (length s.jobs - s.taken) + left_over slots

get_elem?-lt : (l : List Text) (n : ℕ) {x : Text} → get_elem? l n ≡ some x → n < length l
get_elem?-lt [] n h = cc
get_elem?-lt (y ∷ l) zero h = omega arith
get_elem?-lt (y ∷ l) (suc n) h = omega (arith, get_elem?-lt l n h)

next_job-lt : (s : Slot) (x : Text) → next_job s ≡ some x → s.taken < length s.jobs
next_job-lt s x h = elim (Bool-cases (leb s.cap s.taken)) [
  | inl e ↦ absurd (none_some (rw e at h))
  | inr e ↦ get_elem?-lt s.jobs s.taken (rw e at h)
]
  where
    none_some : {y : Text} → ¬ (none ≡ some y)
    none_some h = cc

pass-left_over :
    (slots : List Slot) → left_over (pass slots).0 + length (pass slots).1 ≡ left_over slots
unfolding pass left_over
pass-left_over [] = refl
pass-left_over (s ∷ slots) = elim (Option-cases (next_job s)) [
  | inl e ↦ ground (arith, e, pass-left_over slots)
  | inr (x, e) ↦ ground (arith, e, pass-left_over slots, next_job-lt s x e)
]

passes-enough :
    (m n : ℕ) (slots : List Slot)
    → left_over slots < m
    → left_over slots < n
    → passes m slots ≡ passes n slots
unfolding passes
passes-enough zero n slots a b = absurd (omega arith)
passes-enough (suc m) zero slots a b = absurd (omega arith)
passes-enough (suc m) (suc n) slots a b = elim (Bool-cases (is_empty (pass slots).1)) [
  | inl e ↦ rw e refl
  | inr e ↦ rw e (
      ap (λ l. (pass slots).1 ++ l)
        (passes-enough m n (pass slots).0
          (omega (arith, pass-left_over slots, busy (pass slots).1 e))
          (omega (arith, pass-left_over slots, busy (pass slots).1 e))))
]
  where
    busy : (l : List Text) → is_empty l ≡ false → 0 < length l
    busy [] h = cc
    busy (x ∷ l) h = omega arith

-- How many jobs the groups hold.
abbrev job_total : Groups → ℕ
job_total [] = 0
job_total (g ∷ groups) = length g.1 + job_total groups

job_total-add_job :
    (job tenant : Text) (groups : Groups)
    → job_total (add_job job tenant groups) ≡ suc (job_total groups)
unfolding add_job
job_total-add_job job tenant [] = refl
job_total-add_job job tenant ((t, jobs) ∷ groups) =
    ground (arith, length-append jobs (job ∷ []), job_total-add_job job tenant groups)

job_total-by_tenant :
    (queue : List (Text × Text)) (groups : Groups)
    → job_total (by_tenant queue groups) ≡ length queue + job_total groups
unfolding by_tenant
job_total-by_tenant [] groups = omega arith
job_total-by_tenant ((job, tenant) ∷ queue) groups = omega (
  arith,
  job_total-by_tenant queue (add_job job tenant groups),
  job_total-add_job job tenant groups,
)

job_total-append :
    (groups more : Groups) → job_total (groups ++ more) ≡ job_total groups + job_total more
job_total-append [] more = omega arith
job_total-append (g ∷ groups) more = omega (arith, job_total-append groups more)

job_total-halves :
    (n : ℕ) (groups : Groups)
    → job_total (take n groups) + job_total (drop n groups) ≡ job_total groups
job_total-halves zero groups = omega arith
job_total-halves (suc n) [] = refl
job_total-halves (suc n) (g ∷ groups) = omega (arith, job_total-halves n groups)

job_total-rotated :
    (round : ℕ) (groups : Groups) → job_total (rotated round groups) ≡ job_total groups
unfolding rotated
job_total-rotated round groups = elim (Bool-cases (ltb 1 (length groups))) [
  | inl e ↦
      rw e
        (omega (arith, job_total-append (drop n groups) (take n groups), job_total-halves n groups))
  | inr e ↦ rw e refl
]
  where
    n : ℕ
    n = round % length groups

left_over-slots :
    (jobs_per_round : Text → ℕ) (groups : Groups)
    → left_over (map (slot_of jobs_per_round) groups) ≡ job_total groups
unfolding left_over
left_over-slots share [] = refl
left_over-slots share (g ∷ groups) = omega (arith, left_over-slots share groups)

-- The loop ends within one pass more than there are jobs: a larger bound on its passes changes nothing.
pub fair_round-passes :
    (jobs_per_round : Text → ℕ) (round fuel : ℕ) (queue : List (Text × Text))
    → length queue < fuel
    → passes fuel (slots_of jobs_per_round round queue) ≡ fair_round jobs_per_round round queue
unfolding fair_round
fair_round-passes share round fuel queue h =
    let left = left_over-slots share (rotated round (by_tenant queue [])) in
    let same = job_total-rotated round (by_tenant queue []) in
    let all = job_total-by_tenant queue [] in
    passes-enough fuel (suc (length queue)) (slots_of share round queue)
      (omega (arith, left, same, all, h)) (omega (arith, left, same, all))
