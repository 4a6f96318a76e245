-- ===== src/Jobs/History.antt =====
-- The queue over histories of enqueuing, claiming, finishing and failing.
use personal_vault_rag.Prelude.{
  All, Bool, List, Option-cases, String, arith, concat, inl, inr, refl, subst, sym, true, ℕ, ◌≡◌,
}
use personal_vault_rag.Db.{Vault, Job}
use personal_vault_rag.Table.{count, update, first_by}
use personal_vault_rag.Table.Laws.{All-of, All-map}
use personal_vault_rag.Table.Rows.{count-update, count-update-le}
use personal_vault_rag.Jobs.{
  Payload, is_running, requests, active_for, has_id, create_job, expire_leases, candidates,
  goes_before, claimable, lease, claim_job, finish_job, fail_job, sort_keys,
}
use personal_vault_rag.Jobs.Unique.{IsUnique, enqueue-IsUnique}

-- An UPDATE that keeps identifiers and makes no job active keeps the queue unique.
update-IsUnique :
    (q : Job → Bool) (g : Job → Job) (jobs : List Job)
    → ((j : Job) (i : String) → has_id i (g j) ≡ has_id i j)
    → ((v k : String) (p : Payload)
        → All (λ j. q j ≡ true → active_for v k p (g j) ≡ true → active_for v k p j ≡ true) jobs)
    → IsUnique jobs
    → IsUnique (update q g jobs)
update-IsUnique q g jobs same_id keeps u = record {
  ids = λ i.
      let kept = count-update (has_id i) q g jobs (All-of (λ j e. same_id j i) jobs) in
      omega (arith, kept, u.ids i);
  active = λ v k p.
      let less = count-update-le (active_for v k p) q g jobs (keeps v k p) in
      omega (arith, less, u.active v k p);
}

expire_leases-IsUnique :
    (stamp : ℕ) (jobs : List Job) → IsUnique jobs → IsUnique (expire_leases stamp jobs)
unfolding expire_leases active_for requests
expire_leases-IsUnique stamp jobs =
    update-IsUnique _ _ jobs (λ j i. refl) λ v k p. All-of (λ j e a. ground arith) jobs

lease-IsUnique :
    (id : String) (stamp : ℕ) (worker : String) (jobs : List Job)
    → IsUnique jobs
    → IsUnique (update (claimable id) (lease stamp worker) jobs)
unfolding active_for requests
lease-IsUnique id stamp worker jobs =
    update-IsUnique _ _ jobs (λ j i. refl) λ v k p. All-of (λ j e a. ground arith) jobs

claim_job-IsUnique :
    (vaults : List Vault) (jobs : List Job) (stamp : ℕ) (worker : String)
    → IsUnique jobs
    → IsUnique (claim_job vaults jobs stamp worker).0.1
unfolding claim_job
claim_job-IsUnique vaults jobs stamp worker u =
    elim (Option-cases
      (first_by goes_before (candidates vaults stamp (expire_leases stamp jobs)))) [
        | inl e ↦
            let q : (claim_job vaults jobs stamp worker).0.1 ≡ expire_leases stamp jobs =
              ground arith in
            subst IsUnique (sym q) (expire_leases-IsUnique stamp jobs u)
        | inr ((row, t), e) ↦
            let q : (claim_job vaults jobs stamp worker).0.1
                ≡ update (claimable row.id) (lease stamp worker) (expire_leases stamp jobs) =
              ground arith in
            subst IsUnique (sym q)
              (lease-IsUnique row.id stamp worker _ (expire_leases-IsUnique stamp jobs u))
      ]

finish_job-IsUnique :
    (jobs : List Job) (id : String) (stamp : ℕ)
    → IsUnique jobs
    → IsUnique (finish_job jobs id stamp)
unfolding finish_job active_for
finish_job-IsUnique jobs id stamp =
    update-IsUnique _ _ jobs (λ j i. refl) λ v k p. All-of (λ j e a. ground arith) jobs

-- The job of this identifier is running.
abbrev pub Runs : String → List Job → Type 0
Runs id jobs = All (λ j. has_id id j ≡ true → is_running j.state ≡ true) jobs

fail_job-IsUnique :
    (jobs : List Job) (job : Job) (message : String) (stamp : ℕ)
    → Runs job.id jobs
    → IsUnique jobs
    → IsUnique (fail_job jobs job message stamp)
unfolding fail_job active_for requests
fail_job-IsUnique jobs job message stamp runs =
    update-IsUnique _ _ jobs (λ j i. refl)
      λ v k p. All-map (λ j r e a. ground (arith, r e)) jobs runs

-- One operation on the queue. A failure is reported for a job that is running.
pub data Step (vaults : List Vault) (stamp : ℕ) (l l' : List Job) : Type 0 where
  creates :
      (uuid vault_id kind : String) (payload : Payload) (priority : ℕ)
      → count (has_id (concat "job_" uuid)) l ≡ 0
      → l' ≡ (create_job l stamp uuid vault_id kind payload priority).0
      → Step vaults stamp l l'
  claims : (worker : String) → l' ≡ (claim_job vaults l stamp worker).0.1 → Step vaults stamp l l'
  finishes : (id : String) → l' ≡ finish_job l id stamp → Step vaults stamp l l'
  fails :
      (job : Job) (message : String)
      → Runs job.id l
      → l' ≡ fail_job l job message stamp
      → Step vaults stamp l l'

Step-IsUnique :
    (vaults : List Vault) (stamp : ℕ) (l l' : List Job)
    → Step vaults stamp l l'
    → IsUnique l
    → IsUnique l'
unfolding create_job
Step-IsUnique vaults stamp l l' (creates uuid v k p n fresh e) u =
    subst IsUnique (sym e) (enqueue-IsUnique l stamp u v k (sort_keys p) _ n fresh)
Step-IsUnique vaults stamp l l' (claims worker e) u =
    subst IsUnique (sym e) (claim_job-IsUnique vaults l stamp worker u)
Step-IsUnique vaults stamp l l' (finishes id e) u =
    subst IsUnique (sym e) (finish_job-IsUnique l id stamp u)
Step-IsUnique vaults stamp l l' (fails job message runs e) u =
    subst IsUnique (sym e) (fail_job-IsUnique l job message stamp runs u)

-- The queues that operations reach, whatever the vaults and the times at which they run.
pub data Reach (l₀ : List Job) : List Job → Type 0 where
  here : Reach l₀ l₀
  next :
      {l l' : List Job} (vaults : List Vault) (stamp : ℕ)
      → Reach l₀ l
      → Step vaults stamp l l'
      → Reach l₀ l'

-- Whatever operations run on the queue, with fresh identifiers for new jobs and failures reported
-- for running jobs, no two jobs share an identifier, and no vault has two queued or running jobs of
-- one kind and payload, if that was so at the start.
pub Reach-IsUnique : (l₀ l : List Job) → Reach l₀ l → IsUnique l₀ → IsUnique l
Reach-IsUnique l₀ _ here u = u
Reach-IsUnique l₀ l' (next {l = l} vaults stamp r s) u =
    Step-IsUnique vaults stamp l l' s (Reach-IsUnique l₀ l r u)
