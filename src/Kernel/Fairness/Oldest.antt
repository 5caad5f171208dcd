-- ===== src/Kernel/Fairness/Oldest.antt =====
-- The oldest jobs in a claim round (frust-kernel/kernel/src/fairness.rs, `fair_round`).
use frust.Prelude.{
  Option, none, some, get_elem?, ◌≡◌, false, List, [], ◌∷◌, ◌++◌, map, if◌then◌else◌, is_empty, All,
}
use frust.Prelude.Text.{Text, text_eq}
use frust.Kernel.Fairness.{Groups}

-- The oldest job of each tenant.
unfoldable pub oldest : Groups → List Text
oldest [] = []
oldest ((t, []) ∷ groups) = oldest groups
oldest ((t, job ∷ jobs) ∷ groups) = job ∷ oldest groups

abbrev pub AllBusy : Groups → Type 0
AllBusy groups = All (λ (g : Text × List Text). is_empty g.1 ≡ false) groups

-- The first job of a tenant in the queue, and of each tenant of a list
unfoldable pub first_of : Text → List (Text × Text) → Option Text
first_of tenant [] = none
first_of tenant ((job, t) ∷ queue) =
    let rest = first_of tenant queue in if text_eq t tenant then some job else rest

abbrev pub followed : Option Text → List Text → List Text
followed none jobs = jobs
followed (some job) jobs = job ∷ jobs

unfoldable pub first_jobs : List (Text × Text) → List Text → List Text
first_jobs queue [] = []
first_jobs queue (t ∷ ts) = followed (first_of t queue) (first_jobs queue ts)

abbrev pub tenants : Groups → List Text
tenants groups = map (λ (g : Text × List Text). g.0) groups

-- Each group begins with the first job of its tenant among the jobs that were seen.
abbrev Led : List (Text × Text) → Groups → Type 0
Led seen groups = All (λ (g : Text × List Text). first_of g.0 seen ≡ get_elem? g.1 0) groups

-- The tenants that were seen have a group.
abbrev Covered : List (Text × Text) → Groups → Type 0
Covered seen groups =
    (t : Text)
    → All (λ (g : Text × List Text). text_eq g.0 t ≡ false) groups
    → first_of t seen ≡ none

abbrev one_more : List (Text × Text) → Text → Text → List (Text × Text)
one_more seen job tenant = seen ++ (job, tenant) ∷ []
