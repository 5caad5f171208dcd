-- ===== src/Kernel/Job/Fence.antt =====
-- Leases, claims and ended jobs over all executions (frust-kernel/kernel/src/worker.rs).
use frust.Prelude.{
  ℕ, ◌+◌, ◌≤◌, ◌≡◌, refl, sym, ap, ◌∙◌, ◌≢◌, ◌⊎◌, inl, inr, Bool, true, false, not, ◌&&◌, Option,
  none, some, List, [], ◌∷◌, arith, Bool-cases, length, In,
}
use frust.Prelude.Text.{Text, text_eq_sound, text_eq_iff}
use frust.Kernel.Job.{
  JobStatus, dead, JobRow, JobLease, JobOutcome, finished, refused, transient, from_queue,
  expired_lease, max_job_attempts, is_queued, is_running, says, predicate, claim, try_claim,
  is_exhausted, reap_exhausted, holds_fence, fenced, settle, renew_lease, job_lease_seconds,
}
use frust.Kernel.Job.World.{
  World, IsFresh, Step, claimed, settled, renewed, reaped, waited, Reach, count, is_shaped,
  Distinct, is_leased,
}
use frust.Kernel.Job.Valid.{Reach-IsValid}

says-some : (o : Option Text) (t : Text) → says o t ≡ true → o ≡ some t
says-some none t h = cc
says-some (some s) t h = ap some (text_eq_sound s t h)

holds-token : (l : JobLease) (r : JobRow) → holds_fence l r ≡ true → r.claim_token ≡ some l.token
unfolding holds_fence
holds-token l r h = says-some r.claim_token l.token (ground arith)

IsFresh-absent :
    (l : JobLease) (token : Text) (ls : List JobLease)
    → In l ls
    → IsFresh token ls
    → token ≢ l.token
IsFresh-absent l token [] i f = absurd i
IsFresh-absent l token (x ∷ ls) (inl e) f =
    λ p. ground (arith, ap (λ (y : JobLease). y.token) e, text_eq_iff token x.token)
IsFresh-absent l token (x ∷ ls) (inr i) f = IsFresh-absent l token ls i f.1

Distinct-injective :
    (l m : JobLease) (ls : List JobLease)
    → Distinct ls
    → In l ls
    → In m ls
    → l.token ≡ m.token
    → l ≡ m
Distinct-injective l m [] d i j e = absurd i
Distinct-injective l m (x ∷ ls) d (inl p) (inl q) e = p ∙ sym q
Distinct-injective l m (x ∷ ls) d (inl p) (inr j) e =
    absurd (IsFresh-absent m x.token ls j d.0 (sym (ap (λ (y : JobLease). y.token) p) ∙ e))
Distinct-injective l m (x ∷ ls) d (inr i) (inl q) e =
    absurd (IsFresh-absent l x.token ls i d.0 (sym (ap (λ (y : JobLease). y.token) q) ∙ sym e))
Distinct-injective l m (x ∷ ls) d (inr i) (inr j) e = Distinct-injective l m ls d.1 i j e

settle-holds :
    (l : JobLease) (o : JobOutcome) (r r' : JobRow)
    → settle l o r ≡ some r'
    → holds_fence l r ≡ true
unfolding settle fenced
settle-holds l finished r r' h = ground (arith, Bool-cases (holds_fence l r))
settle-holds l refused r r' h = ground (arith, Bool-cases (holds_fence l r))
settle-holds l transient r r' h = ground (arith, Bool-cases (holds_fence l r))

-- At any time in any execution, at most one of the leases that were ever given can end the job: two
-- leases whose updates both pass the fence are one.
pub settle-exclusive :
    (b : Bool) (w : World) (l m : JobLease) (o p : JobOutcome) (r s : JobRow)
    → Reach b w
    → In l w.issued
    → In m w.issued
    → settle l o w.row ≡ some r
    → settle m p w.row ≡ some s
    → l ≡ m
settle-exclusive b w l m o p r s reach i j h k =
    let tl = holds-token l w.row (settle-holds l o w.row r h) in
    let tm = holds-token m w.row (settle-holds m p w.row s k) in
    Distinct-injective l m w.issued (Reach-IsValid b w reach).distinct i j (some_eq (sym tl ∙ tm))
  where
    some_eq : {x y : Text} → some x ≡ some y → x ≡ y
    some_eq h = cc

shaped-count : (r : JobRow) → is_shaped r ≡ true → count r.attempts ≤ max_job_attempts
shaped-count r h = ground arith

-- In any execution a job is given to a worker five times at most.
pub length-issued : (b : Bool) (w : World) → Reach b w → length w.issued ≤ max_job_attempts
length-issued b w reach =
    let v = Reach-IsValid b w reach in omega (arith, v.counted, shaped-count w.row v.shaped)

-- A job that is done, denied or dead.
abbrev pub is_ended : JobStatus → Bool
is_ended s = not (is_queued s) && not (is_running s)

-- No step changes the row of a job that is done, denied or dead.
pub Step-ended :
    (b : Bool) (w w' : World) → Step b w w' → is_ended w.row.status ≡ true → w'.row ≡ w.row
unfolding claim predicate settle renew_lease fenced holds_fence reap_exhausted is_exhausted
Step-ended b w w' (claimed worker token from_queue r f c) h = ground arith
Step-ended b w w' (claimed worker token expired_lease r f c) h = ground arith
Step-ended b w w' (settled l finished r i s) h = ground arith
Step-ended b w w' (settled l refused r i s) h = ground arith
Step-ended b w w' (settled l transient r i s) h = ground arith
Step-ended b w w' (renewed l r i s) h = ground arith
Step-ended b w w' reaped h = ground arith
Step-ended b w w' (waited d) h = refl

abbrev pub is_some : Option JobRow → Bool
is_some none = false
is_some (some r) = true

abbrev pub is_dead : JobStatus → Bool
is_dead dead = true
is_dead _ = false

row-recovers :
    (b : Bool) (worker token token' : Text) (now : ℕ) (r : JobRow)
    → is_shaped r ≡ true
    → is_leased now r ≡ true
    → is_ended r.status ≡ false
    → (is_some (try_claim b worker token token' (now + job_lease_seconds) r) ≡ true)
      ⊎ (is_dead (reap_exhausted b (now + job_lease_seconds) r).status ≡ true)
unfolding try_claim claim predicate reap_exhausted is_exhausted
row-recovers b worker token token' now r s l e = ground arith

-- No job is lost: if a job that has not ended is left alone for the term of a lease, then a worker that
-- tries gets it, or the reaper ends it.
pub try_claim-recovers :
    (b : Bool) (w : World) (worker token token' : Text)
    → Reach b w
    → is_ended w.row.status ≡ false
    → (is_some (try_claim b worker token token' (w.now + job_lease_seconds) w.row) ≡ true)
      ⊎ (is_dead (reap_exhausted b (w.now + job_lease_seconds) w.row).status ≡ true)
try_claim-recovers b w worker token token' reach e =
    let v = Reach-IsValid b w reach in
    row-recovers b worker token token' w.now w.row v.shaped v.leased e
