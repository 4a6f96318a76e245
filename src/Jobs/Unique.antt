-- ===== src/Jobs/Unique.antt =====
-- At most one active job for a request: the queue keeps the unique index `idx_jobs_active_unique`
-- of app/db.py, and its primary key, by its own checks.
use personal_vault_rag.Prelude.{
  Bool-cases, List, Option-cases, String, [], ap, arith, if◌then◌else◌, inl, inr, refl, same,
  same_iff, same_refl, subst, sym, true, ℕ, ◌++◌, ◌+◌, ◌∙◌, ◌∷◌, ◌≡◌, ◌≤◌,
}
use personal_vault_rag.Db.{Job}
use personal_vault_rag.Table.{select, fetch_one, update, count, first_by}
use personal_vault_rag.Table.Laws.{count-append, All-of}
use personal_vault_rag.Table.Rows.{
  Place, fetch_one-none, first_by-Place, count-Place, update-Place, count-update, select-Place,
}
use personal_vault_rag.Jobs.{
  Payload, same_payload, requests, active_for, failed_for, has_id, later_created, requeue, new_job,
  enqueue,
}

pub record IsUnique (jobs : List Job) : Type 0 where
  pub ids : (id : String) → count (has_id id) jobs ≤ 1
  pub active : (v k : String) (p : Payload) → count (active_for v k p) jobs ≤ 1

same_payload_eq : (p q r : Payload) → same_payload r p ≡ true → same_payload r q ≡ true → p ≡ q
unfolding same_payload
same_payload_eq [] [] [] h k = refl
same_payload_eq [] [] (f ∷ fs) h k = refl
same_payload_eq [] (c ∷ q) [] h k = absurd (ground arith)
same_payload_eq [] (c ∷ q) (f ∷ fs) h k = absurd (ground arith)
same_payload_eq (b ∷ p) [] [] h k = absurd (ground arith)
same_payload_eq (b ∷ p) q [] h k = absurd (ground arith)
same_payload_eq (b ∷ p) [] (f ∷ fs) h k = absurd (ground arith)
same_payload_eq ((b, b') ∷ p) ((c, c') ∷ q) ((f, f') ∷ fs) h k =
    ground
      (arith, same_iff f b, same_iff f c, same_iff f' b', same_iff f' c', same_payload_eq p q fs)

same_payload_refl : (p : Payload) → same_payload p p ≡ true
unfolding same_payload
same_payload_refl [] = refl
same_payload_refl (f ∷ p) = rw (same_refl, same_refl) (same_payload_refl p)

requests_eq :
    (v k w l : String) (p q : Payload) (j : Job)
    → requests v k p j ≡ true
    → requests w l q j ≡ true
    → (v ≡ w) × (k ≡ l) × (p ≡ q)
unfolding requests
requests_eq v k w l p q j h g = ground (
  arith,
  same_iff j.vault_id v,
  same_iff j.vault_id w,
  same_iff j.kind k,
  same_iff j.kind l,
  same_payload_eq p q j.payload,
)

active_requests :
    (v k : String) (p : Payload) (j : Job) → active_for v k p j ≡ true → requests v k p j ≡ true
unfolding active_for
active_requests v k p j h = ground arith

pub failed_requests :
    (v k : String) (p : Payload) (j : Job) → failed_for v k p j ≡ true → requests v k p j ≡ true
unfolding failed_for
failed_requests v k p j h = ground arith

pub requests-requeue :
    (v k : String) (p : Payload) (stamp : ℕ) (j : Job)
    → requests v k p (requeue stamp j) ≡ requests v k p j
unfolding requests
requests-requeue v k p stamp j = refl

pub requests-new_job :
    (id v k : String) (p : Payload) (priority stamp : ℕ)
    → requests v k p (new_job id v k p priority stamp) ≡ true
unfolding requests
requests-new_job id v k p priority stamp = rw (same_refl v, same_refl k) (same_payload_refl p)

module _ (jobs : List Job) (stamp : ℕ) (u : IsUnique jobs) (v k : String) (p : Payload) where
  -- A row of a request may become active where no row of the request is.
  place_active :
      count (active_for v k p) jobs ≡ 0
      → (j : Job) → requests v k p j ≡ true
      → (w l : String) (q : Payload)
      → count (active_for w l q) jobs + (if active_for w l q j then 1 else 0) ≤ 1
  place_active absent j mine w l q = elim (Bool-cases (active_for w l q j)) [
    | inl e ↦
        let (a, b, c) = requests_eq v k w l p q j mine (active_requests w l q j e) in
        let none : count (active_for w l q) jobs ≡ 0 = rw (← a, ← b, ← c) absent in
        rw e (omega (arith, none))
    | inr e ↦ rw e (omega (arith, u.active w l q))
  ]

  module _ (id : String) (priority : ℕ) (fresh : count (has_id id) jobs ≡ 0) where
    append_id : (i : String) → count (has_id i) jobs + ((if same id i then 1 else 0) + 0) ≤ 1
    append_id i = elim (Bool-cases (same id i)) [
      | inl e ↦
          let none : count (has_id i) jobs ≡ 0 = rw (← (same_iff id i).0 e) fresh in
          rw e (omega (arith, none))
      | inr e ↦ rw e (omega (arith, u.ids i))
    ]

    append-IsUnique :
        count (active_for v k p) jobs ≡ 0 → IsUnique (jobs ++ new_job id v k p priority stamp ∷ [])
    append-IsUnique absent = record {
      ids = λ i. rw count-append (unfold count in append_id i);
      active = λ w l q. rw count-append (
          unfold count in
          omega (
            arith,
            place_active absent (new_job id v k p priority stamp)
                (requests-new_job id v k p priority stamp) w l q,
          ));
    }

  requeue-IsUnique :
      count (active_for v k p) jobs ≡ 0
      → (old : Job) → Place old jobs
      → requests v k p old ≡ true
      → IsUnique (update (has_id old.id) (requeue stamp) jobs)
  requeue-IsUnique absent old place mine = record {
    ids = λ i.
        let kept =
          count-update (has_id i) (has_id old.id) (requeue stamp) jobs
            (All-of (λ j e. refl) jobs) in
        omega (arith, kept, u.ids i);
    active = λ w l q.
        let at = subst (λ js. count (has_id old.id) js ≤ 1) place.split (u.ids old.id) in
        let full : count (active_for w l q) jobs
            ≡ count (active_for w l q) place.before
              + (if active_for w l q old then 1 else 0)
              + count (active_for w l q) place.after =
          ap (count (active_for w l q)) place.split ∙ count-Place _ place.before old place.after in
        let new : update (has_id old.id) (requeue stamp) jobs
            ≡ place.before ++ requeue stamp old ∷ place.after =
          ap (update (has_id old.id) (requeue stamp)) place.split
          ∙ update-Place (has_id old.id) (requeue stamp) place.before old place.after at
              (same_refl old.id) in
        rw (new, count-Place)
          (omega (
            arith,
            full,
            place_active absent (requeue stamp old) (requests-requeue v k p stamp old ∙ mine) w l q,
          ));
  }

  pub enqueue-IsUnique :
      (id : String) (priority : ℕ)
      → count (has_id id) jobs ≡ 0
      → IsUnique (enqueue jobs stamp id v k p priority).0
  unfolding enqueue
  enqueue-IsUnique id priority fresh = elim (Option-cases (fetch_one (active_for v k p) jobs)) [
    | inr (existing, e) ↦
        let q : enqueue jobs stamp id v k p priority ≡ (jobs, existing.id) = ground arith in
        subst (λ r. IsUnique r.0) (sym q) u
    | inl e ↦
        let absent = fetch_one-none (active_for v k p) jobs e in
        elim (Option-cases (first_by later_created (select (failed_for v k p) jobs))) [
          | inl f ↦
              let q : enqueue jobs stamp id v k p priority
                  ≡ (jobs ++ new_job id v k p priority stamp ∷ [], id) =
                ground arith in
              subst (λ r. IsUnique r.0) (sym q) (append-IsUnique id priority fresh absent)
          | inr (old, f) ↦
              let found = first_by-Place later_created (select (failed_for v k p) jobs) old f in
              let (place, mine) =
                select-Place (failed_for v k p) jobs old found.before found.after found.split in
              let q : enqueue jobs stamp id v k p priority
                  ≡ (update (has_id old.id) (requeue stamp) jobs, old.id) =
                ground arith in
              subst (λ r. IsUnique r.0) (sym q)
                (requeue-IsUnique absent old place (failed_requests v k p old mine))
        ]
  ]
