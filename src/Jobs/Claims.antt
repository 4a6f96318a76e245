-- ===== src/Jobs/Claims.antt =====
-- What a claim and a failure do to a job.
use personal_vault_rag.Prelude.{
  All, List, Option-cases, String, [], ap, arith, false, if◌then◌else◌, inl, inr, none, or_else,
  refl, same_refl, some, subst, sym, true, ℕ, ◌++◌, ◌∙◌, ◌∷◌, ◌≡◌, ◌≤◌,
}
use personal_vault_rag.Db.{Vault, Job}
use personal_vault_rag.Table.{count, update, first_by}
use personal_vault_rag.Table.Laws.{All-of}
use personal_vault_rag.Table.Rows.{
  Place, Place-later, first_by-Place, first_by-none, count-Place, Place-update, count-update,
  count_mono,
}
use personal_vault_rag.Budget.{find_vault}
use personal_vault_rag.Jobs.{
  is_queued, is_running, has_id, lease_over, unlease, expire_leases, due, candidates, goes_before,
  claimable, lease, claim_job,
}

-- A queued job that may start now, in a vault that is not paused and was last served at `turn`.
pub record IsDue (vaults : List Vault) (stamp : ℕ) (row : Job) (turn : ℕ) : Type 0 where
  pub queued : is_queued row.state ≡ true
  pub started : row.not_before ≤ stamp
  pub vault : Vault
  pub found : find_vault row.vault_id vaults ≡ some vault
  pub unpaused : vault.paused ≡ false
  pub served : or_else vault.last_job_claim_at 0 ≡ turn

due-eq-some :
    (vaults : List Vault) (stamp : ℕ) (j row : Job) (t : ℕ)
    → due vaults stamp j ≡ some (row, t)
    → (j ≡ row) × IsDue vaults stamp row t
unfolding due
due-eq-some vaults stamp j row t h = elim (Option-cases (find_vault j.vault_id vaults)) [
  | inl e ↦ absurd (ground arith)
  | inr (v, e) ↦
      let q : j ≡ row = ground arith in
      let d : IsDue vaults stamp j t = record {
        queued = ground arith;
        started = ground arith;
        vault = v;
        found = e;
        unpaused = ground arith;
        served = ground arith;
      } in
      (q, subst (λ r. IsDue vaults stamp r t) q d)
]

candidates-Place :
    (vaults : List Vault) (stamp : ℕ) (jobs : List Job) (row : Job) (t : ℕ)
    (before after : List (Job × ℕ))
    → candidates vaults stamp jobs ≡ before ++ (row, t) ∷ after
    → Place row jobs × IsDue vaults stamp row t
unfolding candidates
candidates-Place vaults stamp [] row t [] after h = absurd (ground arith)
candidates-Place vaults stamp [] row t (b ∷ before) after h = absurd (ground arith)
candidates-Place vaults stamp (j ∷ js) row t [] after h = elim (Option-cases (due vaults stamp j)) [
  | inl e ↦
      let (place, d) = candidates-Place vaults stamp js row t [] after (ground arith) in
      (Place-later j place, d)
  | inr (c, e) ↦
      let (q, d) = due-eq-some vaults stamp j row t (ground arith) in
      (record { before = []; after = js; split = ap (λ x. x ∷ js) q }, d)
]
candidates-Place vaults stamp (j ∷ js) row t (b ∷ before) after h =
    elim (Option-cases (due vaults stamp j)) [
      | inl e ↦
          let (place, d) =
            candidates-Place vaults stamp js row t (b ∷ before) after (ground arith) in
          (Place-later j place, d)
      | inr (c, e) ↦
          let (place, d) = candidates-Place vaults stamp js row t before after (ground arith) in
          (Place-later j place, d)
    ]

-- What `claim_job` has done when it returns `row`: the job is due, no candidate goes before it, and
-- of the queue with the expired leases taken back its row alone is changed, to a lease.
pub record Claimed (vaults : List Vault) (jobs after : List Job) (stamp : ℕ) (worker : String)
    (row : Job) : Type 0 where
  pub turn : ℕ
  pub is_due : IsDue vaults stamp row turn
  pub least :
      All
        (λ c. goes_before c (row, turn) ≡ false)
        (candidates vaults stamp (expire_leases stamp jobs))
  pub place : Place row (expire_leases stamp jobs)
  pub leased : after ≡ place.before ++ lease stamp worker row ∷ place.after

-- A claim leaves every running job whose lease has not expired as it is.
pub claim_job_exclusive :
    (vaults : List Vault) (jobs : List Job) (stamp : ℕ) (worker : String) (j : Job)
    → Place j jobs
    → is_running j.state ≡ true
    → lease_over stamp j ≡ false
    → Place j (claim_job vaults jobs stamp worker).0.1
unfolding claim_job expire_leases
claim_job_exclusive vaults jobs stamp worker j place runs held =
    let ready = expire_leases stamp jobs in
    let kept : Place j ready = Place-update (lease_over stamp) (unlease stamp) held place in
    elim (Option-cases (first_by goes_before (candidates vaults stamp ready))) [
      | inl e ↦
          let q : (claim_job vaults jobs stamp worker).0.1 ≡ ready = ground arith in
          subst (Place j) (sym q) kept
      | inr ((r, t), e) ↦
          let q : (claim_job vaults jobs stamp worker).0.1
              ≡ update (claimable r.id) (lease stamp worker) ready =
            ground arith in
          subst (Place j) (sym q)
            (Place-update (claimable r.id) (lease stamp worker) (ground arith) kept)
    ]

claimable_one :
    (r : Job) (xs ys : List Job)
    → is_queued r.state ≡ true
    → count (has_id r.id) (xs ++ r ∷ ys) ≤ 1
    → count (claimable r.id) (xs ++ r ∷ ys) ≡ 1
claimable_one r xs ys e h =
    let most =
      count_mono (claimable r.id) (has_id r.id) (xs ++ r ∷ ys)
        (All-of (λ j c. ground arith) (xs ++ r ∷ ys)) in
    let here : ◌≡◌ {A = ℕ} (if claimable r.id r then 1 else 0) 1 = rw (same_refl r.id, e) in
    omega (arith, most, here, count-Place (claimable r.id) xs r ys)

-- With identifiers that differ, a claim returns no job only if there is no candidate: no queued job
-- may start in a vault that is not paused.
pub claim_job-none :
    (vaults : List Vault) (jobs : List Job) (stamp : ℕ) (worker : String)
    → ((id : String) → count (has_id id) jobs ≤ 1)
    → (claim_job vaults jobs stamp worker).1 ≡ none
    → candidates vaults stamp (expire_leases stamp jobs) ≡ []
unfolding claim_job
claim_job-none vaults jobs stamp worker ids h =
    let ready = expire_leases stamp jobs in
    elim (Option-cases (first_by goes_before (candidates vaults stamp ready))) [
      | inl e ↦ first_by-none goes_before _ e
      | inr ((r, t), e) ↦
          let c = first_by-Place goes_before (candidates vaults stamp ready) (r, t) e in
          let (place, d) = candidates-Place vaults stamp ready r t c.before c.after c.split in
          let kept =
            count-update (has_id r.id) (lease_over stamp) (unlease stamp) jobs
              (All-of (λ j x. refl) jobs) in
          let few : count (has_id r.id) ready ≤ 1 =
            unfold expire_leases in omega (arith, kept, ids r.id) in
          let one : count (claimable r.id) ready ≡ 1 =
            ap (count (claimable r.id)) place.split
            ∙ claimable_one r place.before place.after d.queued
                (subst (λ js. count (has_id r.id) js ≤ 1) place.split few) in
          absurd (ground (arith, one))
    ]
