-- ===== src/Kernel/Fairness/Tests.antt =====
-- Tests of a claim round (frust-kernel/kernel/src/fairness.rs): a tenant with two jobs and one with one.
use frust.Prelude.{ℕ, ◌≡◌, refl, List, [], ◌∷◌, arith}
use frust.Prelude.Text.{Text, codes, text_eq}
use frust.Kernel.Fairness.{by_tenant, rotated, passes, slots_of, fair_round}
use frust.Kernel.Fairness.Passes.{fair_round-passes}

abbrev queue : List (Text × Text)
queue = (codes "1", codes "a") ∷ (codes "2", codes "a") ∷ (codes "3", codes "b") ∷ []

abbrev share : Text → ℕ
share t = 2

interleaved : fair_round share 0 queue ≡ codes "1" ∷ codes "3" ∷ codes "2" ∷ []
unfolding fair_round rotated by_tenant frust.Kernel.Fairness.add_job text_eq
interleaved = refl

fair_round-passes_example : passes 7 (slots_of share 0 queue) ≡ fair_round share 0 queue
fair_round-passes_example = fair_round-passes share 0 7 queue (omega arith)
