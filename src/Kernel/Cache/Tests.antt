-- ===== src/Kernel/Cache/Tests.antt =====
-- A request that loads before a write and stores its entry behind the invalidation.
use frust.Prelude.{ℕ, ◌≤◌, ◌≡◌, refl, some, arith}
use frust.Kernel.Cache.{load_doctype, served, World, step_of, written, invalidated, start, Reach}
use frust.Kernel.Cache.Fresh.{Reach-served}

abbrev next_step : ℕ → World → World
next_step i w = step_of (w.phase i) i w

abbrev slow_loaded : World
slow_loaded = next_step 1 (next_step 1 (next_step 1 start))

abbrev slow_filled : World
slow_filled = next_step 1 (invalidated (written slow_loaded))

abbrev new_served : World
new_served = next_step 2 (next_step 2 (next_step 2 (next_step 2 slow_filled)))

slow_loaded-Reach : Reach slow_loaded
slow_loaded-Reach = Reach.request 1 (Reach.request 1 (Reach.request 1 Reach.begin))

slow_filled-Reach : Reach slow_filled
unfolding step_of
slow_filled-Reach = Reach.request 1 (Reach.invalidate (omega arith) (Reach.write slow_loaded-Reach))

new_served-Reach : Reach new_served
new_served-Reach =
    Reach.request 2 (Reach.request 2 (Reach.request 2 (Reach.request 2 slow_filled-Reach)))

-- The entry of the slow request is there, and does not count.
entry_ignored : (slow_filled.entry ≡ some (0, 0)) × (new_served.phase 2 ≡ served 1 1)
unfolding step_of invalidated
entry_ignored = (refl, refl)

hit_and_miss :
    (load_doctype 3 7 (some (3, 5)) ≡ (some (3, 5), 5))
    × (load_doctype 4 7 (some (3, 5)) ≡ (some (4, 7), 7))
unfolding load_doctype
hit_and_miss = (refl, refl)

Reach-served_example : 1 ≤ 1
unfolding step_of invalidated
Reach-served_example = Reach-served new_served 2 1 1 new_served-Reach refl
