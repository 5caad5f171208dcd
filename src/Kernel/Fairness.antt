-- ===== src/Kernel/Fairness.antt =====
-- The order of a claim round over the tenants with queued jobs (frust-kernel/kernel/src/fairness.rs,
-- `fair_round`). The number of the round and the share of each tenant are parameters.
pub mod Oldest
pub mod Passes
mod Tests
use frust.Prelude.{
  ℕ, zero, suc, ◌+◌, ◌-◌, ◌*◌, ◌/◌, ◌%◌, ◌^◌, ◌≤◌, ◌<◌, min, max, compare, Ordering, ◌≡◌, refl, sym,
  ap, ◌∙◌, subst, ◌≢◌, ◌↔◌, ◌⊎◌, inl, inr, Bool, true, false, not, ◌&&◌, ◌||◌, Option, none, some,
  List, [], ◌∷◌, ◌++◌, map, append-nil, append_assoc, arith, ltb, leb, ◌==◌, if◌then◌else◌, ==_iff,
  ltb→lt, leb→le, Bool-cases, Option-cases, bool_eq, length, take, drop, get_elem?, any, filter,
  find, is_empty, length-append, All, All-append, All-map, In, In-append_left, In-append_right,
  In-append,
}
use frust.Prelude.Text.{
  Text, codes, text_eq, text_eq_sound, text_eq_refl, text_eq_iff, text_ltb, text_ltb_irrefl,
  text_ltb_trans, text_ltb_total, contains, contains-In, In-contains,
}

-- A tenant in a round: its share, how many of its jobs were taken, and its jobs, oldest first.
pub record Slot : Type 0 where
  pub cap : ℕ
  pub taken : ℕ
  pub jobs : List Text

abbrev pub Groups : Type 0
Groups = List (Text × List Text)

-- One round of the loop that groups the jobs.
unfoldable pub add_job : Text → Text → Groups → Groups
add_job job tenant [] = (tenant, job ∷ []) ∷ []
add_job job tenant ((t, jobs) ∷ groups) =
    let rest = add_job job tenant groups in
    if text_eq t tenant then (t, jobs ++ job ∷ []) ∷ groups else (t, jobs) ∷ rest

unfoldable pub by_tenant : List (Text × Text) → Groups → Groups
by_tenant [] groups = groups
by_tenant ((job, tenant) ∷ queue) groups = by_tenant queue (add_job job tenant groups)

abbrev pub rotate_left : ℕ → Groups → Groups
rotate_left n groups = drop n groups ++ take n groups

unfoldable pub rotated : ℕ → Groups → Groups
rotated round groups =
    if ltb 1 (length groups) then rotate_left (round % length groups) groups else groups

abbrev pub next_job : Slot → Option Text
next_job s = if leb s.cap s.taken then none else get_elem? s.jobs s.taken

-- The inner loop: the slots behind it, and what it put out.
unfoldable pub pass : List Slot → List Slot × List Text
pass [] = ([], [])
pass (s ∷ slots) =
    let rest = pass slots in
    elim (next_job s) [
      | none ↦ (s ∷ rest.0, rest.1)
      | some job ↦ (record s { taken = s.taken + 1 } ∷ rest.0, job ∷ rest.1)
    ]

-- The outer loop, which ends with a pass that takes nothing.
unfoldable pub passes : ℕ → List Slot → List Text
unfolding pass
passes zero slots = []
passes (suc fuel) slots =
    let p = pass slots in let more = passes fuel p.0 in if is_empty p.1 then [] else p.1 ++ more

abbrev pub slot_of : (Text → ℕ) → Text × List Text → Slot
slot_of jobs_per_round g = record { cap = jobs_per_round g.0; taken = 0; jobs = g.1 }

abbrev pub slots_of : (Text → ℕ) → ℕ → List (Text × Text) → List Slot
slots_of jobs_per_round round queue =
    map (slot_of jobs_per_round) (rotated round (by_tenant queue []))

unfoldable pub fair_round : (Text → ℕ) → ℕ → List (Text × Text) → List Text
unfolding passes
fair_round jobs_per_round round queue =
    passes (suc (length queue)) (slots_of jobs_per_round round queue)
