-- ===== src/Kernel/Job/World.antt =====
-- The executions of workers on one job (frust-kernel/kernel/src/worker.rs): a row, a clock, the leases
-- that were given out, the steps between worlds, and when a world is valid.
use frust.Prelude.{
  if◌then◌else◌, ℕ, ◌+◌, ◌≤◌, ◌≡◌, Bool, true, false, not, ◌&&◌, ◌||◌, Option, none, some, List, [],
  ◌∷◌, leb, ◌==◌, length, All, In,
}
use frust.Prelude.Text.{Text, text_eq}
use frust.Kernel.Job.{
  queued, running, done, denied, dead, JobRow, JobLease, JobOutcome, ClaimSource, max_job_attempts,
  is_running, may_start, claim, reap_exhausted, decode_job, holds_fence, settle, renew_lease,
  job_lease_seconds,
}

-- The job's row, the clock, and every lease that a worker was given.
pub record World : Type 0 where
  pub row : JobRow
  pub now : ℕ
  pub issued : List JobLease

abbrev pub issue : Option JobLease → List JobLease → List JobLease
issue none ls = ls
issue (some l) ls = l ∷ ls

-- No lease was given this token.
abbrev pub IsFresh : Text → List JobLease → Type 0
IsFresh token ls = All (λ (l : JobLease). text_eq token l.token ≡ false) ls

-- A step of the world: a claim under a token that was not used, an update by a worker that was given
-- its lease at any time before, the reaper, or time.
pub data Step (none_below : Bool) (w : World) : World → Type 0 where
  claimed :
      (worker token : Text) (source : ClaimSource) (r : JobRow)
      → IsFresh token w.issued
      → claim none_below worker token source w.now w.row ≡ some r
      → Step none_below w (record { row = r; now = w.now; issued = issue (decode_job r) w.issued })
  settled :
      (l : JobLease) (outcome : JobOutcome) (r : JobRow)
      → In l w.issued
      → settle l outcome w.row ≡ some r
      → Step none_below w (record w { row = r })
  renewed :
      (l : JobLease) (r : JobRow)
      → In l w.issued
      → renew_lease w.now l w.row ≡ some r
      → Step none_below w (record w { row = r })
  reaped : Step none_below w (record w { row = reap_exhausted none_below w.now w.row })
  waited : (d : ℕ) → Step none_below w (record w { now = w.now + d })

-- A job is enqueued with no count and no lease.
abbrev pub enqueued : World
enqueued = record {
  row = record {
    status = queued;
    attempts = none;
    claimed_by = none;
    claim_token = none;
    lease_expires_at = none;
  };
  now = 0;
  issued = [];
}

pub data Reach (none_below : Bool) : World → Type 0 where
  start : Reach none_below enqueued
  after : {w w' : World} → Reach none_below w → Step none_below w w' → Reach none_below w'

-- How often the job was claimed.
abbrev pub count : Option ℕ → ℕ
count none = 0
count (some n) = n

-- The count of a row fits its status.
abbrev pub is_shaped : JobRow → Bool
is_shaped r = elim r.status [
  | queued ↦ may_start r.attempts
  | running ↦ elim r.attempts [ none ↦ false | some n ↦ leb 1 n && leb n max_job_attempts ]
  | done ↦ leb (count r.attempts) max_job_attempts
  | denied ↦ leb (count r.attempts) max_job_attempts
  | dead ↦ leb (count r.attempts) max_job_attempts
]

abbrev pub counts : Option ℕ → ℕ → Bool
counts none n = false
counts (some m) n = m == n

-- A lease that passes the fence has the count of the row.
abbrev pub agrees : JobRow → JobLease → Bool
agrees r l = not (holds_fence l r) || counts r.attempts l.attempt

abbrev pub Agree : JobRow → List JobLease → Type 0
Agree r ls = All (λ (l : JobLease). agrees r l ≡ true) ls

-- No two leases have one token.
abbrev pub Distinct : List JobLease → Type 0
Distinct [] = Unit
Distinct (l ∷ ls) = IsFresh l.token ls × Distinct ls

-- A running job has a lease, which ends within its term.
abbrev pub is_leased : ℕ → JobRow → Bool
is_leased now r =
    not (is_running r.status)
    || elim r.lease_expires_at [ none ↦ false | some t ↦ leb t (now + job_lease_seconds) ]

abbrev pub is_set {ℓ} : {A : Type ℓ} → Option A → Bool
is_set none = false
is_set (some a) = true

-- The columns of a claim are set while the job is running, and empty in every other status.
abbrev pub fits_status : JobRow → Bool
fits_status r =
    if is_running r.status
    then is_set r.claimed_by && (is_set r.claim_token && is_set r.lease_expires_at)
    else not (is_set r.claimed_by || (is_set r.claim_token || is_set r.lease_expires_at))

pub record IsValid (w : World) : Type 0 where
  pub shaped : is_shaped w.row ≡ true
  pub columns : fits_status w.row ≡ true
  pub agree : Agree w.row w.issued
  pub distinct : Distinct w.issued
  pub leased : is_leased w.now w.row ≡ true
  pub counted : length w.issued ≤ count w.row.attempts
