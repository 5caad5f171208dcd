-- ===== src/Kernel/Job.antt =====
-- The row of a background job and the updates that workers make to it
-- (frust-kernel/kernel/src/worker.rs). An update is one statement of the database, which is atomic: it
-- changes the row and returns it, or its condition fails and it changes nothing. The columns for
-- messages and time stamps are left out. How the database compares a missing count with a number is
-- a parameter.
pub mod World
pub mod Valid
pub mod Fence
mod Tests
use frust.Prelude.{
  ℕ, zero, suc, ◌+◌, ◌-◌, ◌*◌, ◌/◌, ◌%◌, ◌^◌, ◌≤◌, ◌<◌, min, max, compare, Ordering, ◌≡◌, refl, sym,
  ap, ◌∙◌, subst, ◌≢◌, ◌↔◌, ◌⊎◌, inl, inr, Bool, true, false, not, ◌&&◌, ◌||◌, Option, none, some,
  List, [], ◌∷◌, ◌++◌, map, append-nil, append_assoc, arith, ltb, leb, ◌==◌, if◌then◌else◌, ==_iff,
  ltb→lt, leb→le, Bool-cases, Option-cases, bool_eq, length, take, drop, get_elem?, any, filter,
  find, is_empty, length-append, All, All-append, All-map, In, In-append_left, In-append_right,
  In-append,
}
use frust.Prelude.Text.{
  Text, codes, text_eq, text_eq_sound, text_eq_refl, text_eq_iff, text_ltb, text_ltb_irrefl,
  text_ltb_trans, text_ltb_total, contains, contains-In, In-contains,
}

-- `done` and `denied` are the two statuses of `finish`.
pub data JobStatus : Type 0 where
  queued running done denied dead : JobStatus

pub record JobRow : Type 0 where
  pub status : JobStatus
  pub attempts : Option ℕ
  pub claimed_by : Option Text
  pub claim_token : Option Text
  pub lease_expires_at : Option ℕ

pub record JobLease : Type 0 where
  pub claimed_by : Text
  pub token : Text
  pub attempt : ℕ

-- `Done`, `Denied` and `Retry`, without their messages; the first two are also statuses here.
pub data JobOutcome : Type 0 where
  finished refused transient : JobOutcome

-- `Queued` and `ExpiredLease`
pub data ClaimSource : Type 0 where
  from_queue expired_lease : ClaimSource

abbrev pub job_lease_seconds : ℕ
job_lease_seconds = 300

abbrev pub max_job_attempts : ℕ
max_job_attempts = 5

abbrev pub is_queued : JobStatus → Bool
is_queued queued = true
is_queued _ = false

abbrev pub is_running : JobStatus → Bool
is_running running = true
is_running _ = false

-- `lease_expires_at != NONE AND lease_expires_at <= time::now()`
abbrev pub has_expired : ℕ → Option ℕ → Bool
has_expired now none = false
has_expired now (some t) = leb t now

-- `attempts = NONE OR attempts < MAX_JOB_ATTEMPTS`
abbrev pub may_start : Option ℕ → Bool
may_start none = true
may_start (some n) = ltb n max_job_attempts

abbrev pub next_attempt : Option ℕ → ℕ
next_attempt none = 1
next_attempt (some n) = n + 1

-- `claimed_by = '…'`, and the same for the token
abbrev pub says : Option Text → Text → Bool
says none t = false
says (some s) t = text_eq s t

module _ (none_below : Bool) where
  -- `attempts < MAX_JOB_ATTEMPTS`
  abbrev pub below_max : Option ℕ → Bool
  below_max none = none_below
  below_max (some n) = ltb n max_job_attempts

  -- `ClaimSource::predicate`
  unfoldable pub predicate : ClaimSource → ℕ → JobRow → Bool
  predicate from_queue now r = is_queued r.status && may_start r.attempts
  predicate expired_lease now r =
      is_running r.status && (has_expired now r.lease_expires_at && below_max r.attempts)

  -- `claim_sql`
  unfoldable pub claim : Text → Text → ClaimSource → ℕ → JobRow → Option JobRow
  unfolding predicate
  claim worker token source now r =
      if predicate source now r
      then some (record {
        status = running;
        attempts = some (next_attempt r.attempts);
        claimed_by = some worker;
        claim_token = some token;
        lease_expires_at = some (now + job_lease_seconds);
      })
      else none

  -- `Worker::try_claim`, with a token for each of its two updates
  unfoldable pub try_claim : Text → Text → Text → ℕ → JobRow → Option JobRow
  unfolding claim
  try_claim worker token token' now r = elim (claim worker token from_queue now r) [
    | some r' ↦ some r'
    | none ↦ claim worker token' expired_lease now r
  ]

  -- `attempts >= MAX_JOB_ATTEMPTS AND (…)` of `reap_exhausted`
  unfoldable pub is_exhausted : ℕ → JobRow → Bool
  is_exhausted now r =
      not (below_max r.attempts)
      && (is_queued r.status || (is_running r.status && has_expired now r.lease_expires_at))

-- What ends a claim.
abbrev pub released : JobStatus → JobRow → JobRow
released s r = record r {
  status = s;
  claimed_by = none;
  claim_token = none;
  lease_expires_at = none;
}

-- `Worker::reap_exhausted`
unfoldable pub reap_exhausted : Bool → ℕ → JobRow → JobRow
unfolding is_exhausted
reap_exhausted none_below now r = if is_exhausted none_below now r then released dead r else r

-- The lease that `decode_job` reads of the columns of a claimed row; none of them may be empty.
unfoldable pub lease_of : Option ℕ → Option Text → Option Text → Option ℕ → Option JobLease
lease_of (some (suc n)) (some (w ∷ ws)) (some (t ∷ ts)) (some e) =
    some (record { claimed_by = w ∷ ws; token = t ∷ ts; attempt = suc n })
lease_of _ _ _ _ = none

unfoldable pub decode_job : JobRow → Option JobLease
unfolding lease_of
decode_job r = lease_of r.attempts r.claimed_by r.claim_token r.lease_expires_at

-- The condition of `fenced_update_sql`
unfoldable pub holds_fence : JobLease → JobRow → Bool
holds_fence l r =
    is_running r.status && (says r.claimed_by l.claimed_by && says r.claim_token l.token)

unfoldable pub fenced : JobLease → (JobRow → JobRow) → JobRow → Option JobRow
unfolding holds_fence
fenced l set r = if holds_fence l r then some (set r) else none

-- `retry_update`
unfoldable pub retry_update : ℕ → JobRow → JobRow
retry_update attempt r = if leb max_job_attempts attempt then released dead r else released queued r

-- The end of `run_traced`: `finish`, `finish_with` and `requeue`.
unfoldable pub settle : JobLease → JobOutcome → JobRow → Option JobRow
unfolding fenced retry_update
settle l finished r = fenced l (released done) r
settle l refused r = fenced l (released denied) r
settle l transient r = fenced l (retry_update l.attempt) r

-- `Worker::renew_lease`
unfoldable pub renew_lease : ℕ → JobLease → JobRow → Option JobRow
unfolding fenced
renew_lease now l r =
    fenced l (λ r. record r { lease_expires_at = some (now + job_lease_seconds) }) r
