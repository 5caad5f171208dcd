-- ===== src/Kernel/Job/Valid.antt =====
-- The steps of workers and the validity of a world (frust-kernel/kernel/src/worker.rs).
use frust.Prelude.{
  ℕ, suc, ◌+◌, ◌≤◌, ◌≡◌, refl, sym, ap, subst, ◌⊎◌, inl, inr, Bool, true, false, ◌&&◌, Option, none,
  some, List, [], ◌∷◌, arith, leb, Option-cases, length, All, In,
}
use frust.Prelude.Text.{Text}
use frust.Kernel.Job.{
  running, JobRow, JobLease, JobOutcome, finished, refused, transient, ClaimSource, from_queue,
  expired_lease, max_job_attempts, is_running, next_attempt, says, predicate, claim, is_exhausted,
  reap_exhausted, decode_job, lease_of, holds_fence, fenced, retry_update, settle, renew_lease,
  job_lease_seconds,
}
use frust.Kernel.Job.World.{
  fits_status, World, issue, IsFresh, Step, claimed, settled, renewed, reaped, waited, Reach, start,
  after, count, is_shaped, agrees, Agree, Distinct, is_leased, IsValid,
}

pub In-All : (P : JobLease → Type 0) (l : JobLease) (ls : List JobLease) → In l ls → All P ls → P l
In-All P l [] i a = absurd i
In-All P l (x ∷ ls) (inl e) a = subst P (sym e) a.0
In-All P l (x ∷ ls) (inr i) a = In-All P l ls i a.1

-- Leases that cannot pass the fence agree with the row.
Agree-stale :
    (r : JobRow) (token : Text) (ls : List JobLease)
    → r.claim_token ≡ some token
    → IsFresh token ls
    → Agree r ls
unfolding holds_fence
Agree-stale r token [] e f = tt
Agree-stale r token (l ∷ ls) e f =
    (ground (arith, ap (λ o. says o l.token) e), Agree-stale r token ls e f.1)

Agree-ended : (r : JobRow) (ls : List JobLease) → is_running r.status ≡ false → Agree r ls
unfolding holds_fence
Agree-ended r [] e = tt
Agree-ended r (l ∷ ls) e = (ground arith, Agree-ended r ls e)

-- An update that leaves the columns of the fence alone.
Agree-renewed :
    (r : JobRow) (t : Option ℕ) (ls : List JobLease)
    → Agree r ls
    → Agree (record r { lease_expires_at = t }) ls
unfolding holds_fence
Agree-renewed r t [] a = tt
Agree-renewed r t (l ∷ ls) a = (a.0, Agree-renewed r t ls a.1)

-- What a claim writes.
claim-row :
    (b : Bool) (worker token : Text) (source : ClaimSource) (now : ℕ) (r r' : JobRow)
    → claim b worker token source now r ≡ some r'
    → (predicate b source now r ≡ true)
      × (r' ≡ record {
        status = running;
        attempts = some (next_attempt r.attempts);
        claimed_by = some worker;
        claim_token = some token;
        lease_expires_at = some (now + job_lease_seconds);
      })
unfolding claim
claim-row b worker token source now r r' h = ground arith

-- What `decode_job` reads.
lease_of-some :
    (a : Option ℕ) (w t : Option Text) (e : Option ℕ) (l : JobLease)
    → lease_of a w t e ≡ some l
    → (a ≡ some l.attempt) × (w ≡ some l.claimed_by) × (t ≡ some l.token)
unfolding lease_of
lease_of-some a w t e l h = ground arith

issue-Agree :
    (r : JobRow) (token : Text) (ls : List JobLease)
    → r.claim_token ≡ some token
    → IsFresh token ls
    → Agree r (issue (decode_job r) ls)
unfolding decode_job holds_fence
issue-Agree r token ls e f = elim (Option-cases (decode_job r)) [
  | inl d ↦ rw d (Agree-stale r token ls e f)
  | inr (l, d) ↦ rw d (
    ground (arith, lease_of-some r.attempts r.claimed_by r.claim_token r.lease_expires_at l d),
    Agree-stale r token ls e f,
  )
]

issue-Distinct :
    (r : JobRow) (token : Text) (ls : List JobLease)
    → r.claim_token ≡ some token
    → IsFresh token ls
    → Distinct ls
    → Distinct (issue (decode_job r) ls)
unfolding decode_job
issue-Distinct r token ls e f k = elim (Option-cases (decode_job r)) [
  | inl d ↦ rw d k
  | inr (l, d) ↦ rw d (
    subst (λ t. IsFresh t ls)
        (ground (arith, lease_of-some r.attempts r.claimed_by r.claim_token r.lease_expires_at l d))
        f,
    k,
  )
]

claim-is_shaped :
    (b : Bool) (source : ClaimSource) (now : ℕ) (r : JobRow)
    → is_shaped r ≡ true
    → predicate b source now r ≡ true
    → leb 1 (next_attempt r.attempts) && leb (next_attempt r.attempts) max_job_attempts ≡ true
unfolding predicate
claim-is_shaped b from_queue now r s p = ground arith
claim-is_shaped b expired_lease now r s p = ground arith

-- The two ends of a claim: the job ends, or it is queued with attempts left.
settle-shape :
    (l : JobLease) (outcome : JobOutcome) (r r' : JobRow)
    → is_shaped r ≡ true
    → agrees r l ≡ true
    → settle l outcome r ≡ some r'
    → (is_shaped r' ≡ true) × (is_running r'.status ≡ false) × (r'.attempts ≡ r.attempts)
unfolding settle fenced retry_update holds_fence
settle-shape l finished r r' s a h = ground arith
settle-shape l refused r r' s a h = ground arith
settle-shape l transient r r' s a h = ground arith

renew-row :
    (now : ℕ) (l : JobLease) (r r' : JobRow)
    → renew_lease now l r ≡ some r'
    → r' ≡ record r { lease_expires_at = some (now + job_lease_seconds) }
unfolding renew_lease fenced holds_fence
renew-row now l r r' h = ground arith

reap-shape :
    (b : Bool) (now : ℕ) (r : JobRow)
    → is_shaped r ≡ true
    → (reap_exhausted b now r ≡ r)
      ⊎ ((is_shaped (reap_exhausted b now r) ≡ true)
          × (is_running (reap_exhausted b now r).status ≡ false)
          × ((reap_exhausted b now r).attempts ≡ r.attempts))
unfolding reap_exhausted is_exhausted
reap-shape b now r s = ground arith

length-issue : (o : Option JobLease) (ls : List JobLease) → length (issue o ls) ≤ suc (length ls)
length-issue none ls = omega arith
length-issue (some l) ls = omega arith

ended-leased : (now : ℕ) (r : JobRow) → is_running r.status ≡ false → is_leased now r ≡ true
ended-leased now r e = rw e refl

-- A claim counts one more lease.
claim-counted :
    (a : Option ℕ) (o : Option JobLease) (ls : List JobLease)
    → length ls ≤ count a
    → length (issue o ls) ≤ next_attempt a
claim-counted none o ls h = omega (arith, h, length-issue o ls)
claim-counted (some n) o ls h = omega (arith, h, length-issue o ls)

leased_now : (now : ℕ) → leb (now + job_lease_seconds) (now + job_lease_seconds) ≡ true
leased_now now = ground arith

renewed-leased :
    (now : ℕ) (r : JobRow)
    → is_leased now (record r { lease_expires_at = some (now + job_lease_seconds) }) ≡ true
renewed-leased now r = ground arith

waited-leased : (now d : ℕ) (r : JobRow) → is_leased now r ≡ true → is_leased (now + d) r ≡ true
waited-leased now d r h = ground arith

settle-fits_status :
    (l : JobLease) (outcome : JobOutcome) (r r' : JobRow)
    → settle l outcome r ≡ some r'
    → fits_status r' ≡ true
unfolding settle fenced retry_update holds_fence
settle-fits_status l finished r r' h = ground arith
settle-fits_status l refused r r' h = ground arith
settle-fits_status l transient r r' h = ground arith

renew-fits_status :
    (now : ℕ) (l : JobLease) (r r' : JobRow)
    → fits_status r ≡ true
    → renew_lease now l r ≡ some r'
    → fits_status r' ≡ true
unfolding renew_lease fenced holds_fence
renew-fits_status now l r r' f h = ground arith

reap-fits_status :
    (b : Bool) (now : ℕ) (r : JobRow)
    → fits_status r ≡ true
    → fits_status (reap_exhausted b now r) ≡ true
unfolding reap_exhausted is_exhausted
reap-fits_status b now r f = ground arith

Step-IsValid : (b : Bool) (w w' : World) → Step b w w' → IsValid w → IsValid w'
Step-IsValid b w w' (claimed worker token source r f c) v =
    let (p, e) = claim-row b worker token source w.now w.row r c in
    record {
      shaped =
          subst (λ x. is_shaped x ≡ true) (sym e) (claim-is_shaped b source w.now w.row v.shaped p);
      columns = subst (λ x. fits_status x ≡ true) (sym e) refl;
      agree = issue-Agree r token w.issued (ap (λ (x : JobRow). x.claim_token) e) f;
      distinct =
          issue-Distinct r token w.issued (ap (λ (x : JobRow). x.claim_token) e) f v.distinct;
      leased = subst (λ x. is_leased w.now x ≡ true) (sym e) (leased_now w.now);
      counted =
          subst (λ (x : JobRow). length (issue (decode_job r) w.issued) ≤ count x.attempts) (sym e)
            (claim-counted w.row.attempts (decode_job r) w.issued v.counted);
    }
Step-IsValid b w w' (settled l outcome r i h) v =
    let s =
      settle-shape l outcome w.row r v.shaped
        (In-All (λ x. agrees w.row x ≡ true) l w.issued i v.agree) h in
    record {
      shaped = s.0;
      columns = settle-fits_status l outcome w.row r h;
      agree = Agree-ended r w.issued s.1;
      distinct = v.distinct;
      leased = ended-leased w.now r s.1;
      counted = subst (λ a. length w.issued ≤ count a) (sym s.2) v.counted;
    }
Step-IsValid b w w' (renewed l r i h) v =
    let e = renew-row w.now l w.row r h in
    record {
      shaped = subst (λ x. is_shaped x ≡ true) (sym e) v.shaped;
      columns = renew-fits_status w.now l w.row r v.columns h;
      agree =
          subst (λ x. Agree x w.issued) (sym e)
            (Agree-renewed w.row (some (w.now + job_lease_seconds)) w.issued v.agree);
      distinct = v.distinct;
      leased = subst (λ x. is_leased w.now x ≡ true) (sym e) (renewed-leased w.now w.row);
      counted = subst (λ (x : JobRow). length w.issued ≤ count x.attempts) (sym e) v.counted;
    }
Step-IsValid b w w' reaped v = elim (reap-shape b w.now w.row v.shaped) [
  | inl e ↦ record {
    shaped = subst (λ x. is_shaped x ≡ true) (sym e) v.shaped;
    columns = reap-fits_status b w.now w.row v.columns;
    agree = subst (λ x. Agree x w.issued) (sym e) v.agree;
    distinct = v.distinct;
    leased = subst (λ x. is_leased w.now x ≡ true) (sym e) v.leased;
    counted = subst (λ (x : JobRow). length w.issued ≤ count x.attempts) (sym e) v.counted;
  }
  | inr s ↦ record {
    shaped = s.0;
    columns = reap-fits_status b w.now w.row v.columns;
    agree = Agree-ended (reap_exhausted b w.now w.row) w.issued s.1;
    distinct = v.distinct;
    leased = ended-leased w.now (reap_exhausted b w.now w.row) s.1;
    counted = subst (λ a. length w.issued ≤ count a) (sym s.2) v.counted;
  }
]
Step-IsValid b w w' (waited d) v = record {
  shaped = v.shaped;
  columns = v.columns;
  agree = v.agree;
  distinct = v.distinct;
  leased = waited-leased w.now d w.row v.leased;
  counted = v.counted;
}

pub Reach-IsValid : (b : Bool) (w : World) → Reach b w → IsValid w
Reach-IsValid b w start = record {
  shaped = refl;
  columns = refl;
  agree = tt;
  distinct = tt;
  leased = refl;
  counted = omega arith;
}
Reach-IsValid b w (after {w = v} r s) = Step-IsValid b v w s (Reach-IsValid b v r)
