-- ===== src/Jobs/Created.antt =====
-- The job that `create_job` of app/catalog.py answers with.
use personal_vault_rag.Prelude.{
  List, Option-cases, String, [], ap, arith, concat, inl, inr, refl, same_refl, subst, sym, true, ℕ,
  ◌++◌, ◌∙◌, ◌∷◌, ◌≡◌, ◌≤◌,
}
use personal_vault_rag.Db.{Job}
use personal_vault_rag.Table.{select, fetch_one, update, count, first_by}
use personal_vault_rag.Table.Rows.{
  Place, fetch_one-Place, first_by-Place, select-Place, update-Place,
}
use personal_vault_rag.Jobs.{
  Payload, requests, active_for, failed_for, has_id, later_created, requeue, new_job, enqueue,
  create_job, sort_keys,
}
use personal_vault_rag.Jobs.Unique.{IsUnique, requests-new_job}

-- The queue has an active job of the request, with this identifier.
pub record Answers (jobs : List Job) (id vault_id kind : String) (payload : Payload) : Type 0 where
  pub job : Job
  pub place : Place job jobs
  pub named : job.id ≡ id
  pub active : active_for vault_id kind payload job ≡ true

requeue_active :
    (v k : String) (p : Payload) (stamp : ℕ) (old : Job)
    → failed_for v k p old ≡ true
    → active_for v k p (requeue stamp old) ≡ true
unfolding active_for failed_for requests
requeue_active v k p stamp old h = ground arith

new_job_active :
    (id v k : String) (p : Payload) (priority stamp : ℕ)
    → active_for v k p (new_job id v k p priority stamp) ≡ true
unfolding active_for
new_job_active id v k p priority stamp = rw (requests-new_job id v k p priority stamp) refl

enqueue-Answers :
    (jobs : List Job) (stamp : ℕ) (id v k : String) (p : Payload) (priority : ℕ)
    → IsUnique jobs
    → let r = enqueue jobs stamp id v k p priority in Answers r.0 r.1 v k p
unfolding enqueue
enqueue-Answers jobs stamp id v k p priority u =
    elim (Option-cases (fetch_one (active_for v k p) jobs)) [
      | inr (old, e) ↦
          let q : enqueue jobs stamp id v k p priority ≡ (jobs, old.id) = ground arith in
          let (place, fits) = fetch_one-Place (active_for v k p) jobs old e in
          subst (λ r. Answers r.0 r.1 v k p) (sym q)
            (record { job = old; place = place; named = refl; active = fits })
      | inl e ↦ elim (Option-cases (first_by later_created (select (failed_for v k p) jobs))) [
        | inl f ↦
            let q : enqueue jobs stamp id v k p priority
                ≡ (jobs ++ new_job id v k p priority stamp ∷ [], id) =
              ground arith in
            subst (λ r. Answers r.0 r.1 v k p) (sym q)
              (record {
                job = new_job id v k p priority stamp;
                place = record { before = jobs; after = []; split = refl };
                named = refl;
                active = new_job_active id v k p priority stamp;
              })
        | inr (old, f) ↦
            let found = first_by-Place later_created (select (failed_for v k p) jobs) old f in
            let (place, mine) =
              select-Place (failed_for v k p) jobs old found.before found.after found.split in
            let at = subst (λ js. count (has_id old.id) js ≤ 1) place.split (u.ids old.id) in
            let q : enqueue jobs stamp id v k p priority
                ≡ (update (has_id old.id) (requeue stamp) jobs, old.id) =
              ground arith in
            subst (λ r. Answers r.0 r.1 v k p) (sym q)
              (record {
                job = requeue stamp old;
                place = record {
                  before = place.before;
                  after = place.after;
                  split =
                      ap (update (has_id old.id) (requeue stamp)) place.split
                      ∙ update-Place (has_id old.id) (requeue stamp) place.before old place.after at
                          (same_refl old.id);
                };
                named = refl;
                active = requeue_active v k p stamp old mine;
              })
      ]
    ]

-- Whether it finds an active job, queues a failed one again or inserts a new one, `create_job`
-- answers with the identifier of a job of the requested vault, kind and payload that is queued or
-- running in the queue it leaves.
pub create_job-Answers :
    (jobs : List Job) (stamp : ℕ) (uuid v k : String) (p : Payload) (priority : ℕ)
    → IsUnique jobs
    → let r = create_job jobs stamp uuid v k p priority in Answers r.0 r.1 v k (sort_keys p)
unfolding create_job
create_job-Answers jobs stamp uuid v k p priority u =
    enqueue-Answers jobs stamp (concat "job_" uuid) v k (sort_keys p) priority u
