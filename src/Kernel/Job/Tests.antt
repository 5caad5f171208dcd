-- ===== src/Kernel/Job/Tests.antt =====
-- Tests of the job worker (frust-kernel/kernel/src/worker.rs): a job that one worker claims and ends.
use frust.Prelude.{◌≤◌, ◌≡◌, refl, ◌⊎◌, inl, true, some, [], length, In}
use frust.Prelude.Text.{codes, text_eq}
use frust.Kernel.Job.{
  JobRow, running, done, JobLease, finished, from_queue, claim, try_claim, reap_exhausted,
  decode_job, settle, released, max_job_attempts,
}
use frust.Kernel.Job.World.{World, issue, claimed, enqueued, Reach, start, after}
use frust.Kernel.Job.Fence.{settle-exclusive, length-issued, is_some, is_dead, try_claim-recovers}

abbrev row : JobRow
row = record {
  status = running;
  attempts = some 1;
  claimed_by = some (codes "w1");
  claim_token = some (codes "t1");
  lease_expires_at = some 300;
}

abbrev lease : JobLease
lease = record { claimed_by = codes "w1"; token = codes "t1"; attempt = 1 }

abbrev world : World
world = record { row = row; now = 0; issued = issue (decode_job row) [] }

row-claimed : claim true (codes "w1") (codes "t1") from_queue 0 enqueued.row ≡ some row
unfolding claim
row-claimed = refl

world-Reach : Reach true world
world-Reach = after start (claimed (codes "w1") (codes "t1") from_queue row tt row-claimed)

lease-issued : In lease world.issued
unfolding decode_job
lease-issued = inl refl

row-settled : settle lease finished row ≡ some (released done row)
unfolding settle text_eq
row-settled = refl

abbrev ended : World
ended = record world { row = released done row }

settle-exclusive_example : lease ≡ lease
settle-exclusive_example =
    settle-exclusive true world lease lease finished finished (released done row)
      (released done row) world-Reach lease-issued lease-issued row-settled row-settled

length-issued_example : length world.issued ≤ max_job_attempts
length-issued_example = length-issued true world world-Reach

try_claim-recovers_example :
    (is_some (try_claim true (codes "w2") (codes "t2") (codes "t3") 300 row) ≡ true)
    ⊎ (is_dead (reap_exhausted true 300 row).status ≡ true)
try_claim-recovers_example =
    try_claim-recovers true world (codes "w2") (codes "t2") (codes "t3") world-Reach refl
