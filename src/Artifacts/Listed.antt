-- ===== src/Artifacts/Listed.antt =====
-- What `pending_artifacts` of app/main.py tells a connector, and what it then fetches.
use personal_vault_rag.Prelude.{
  All, All-take, Bool, List, Result-cases, String, and_parts, arith, inl, inr, length, length-take,
  ok, refl, same, same_iff, same_refl, subst, take, true, ℕ, ◌&&◌, ◌≡◌, ◌≤◌,
}
use personal_vault_rag.Db.{PendingArtifact}
use personal_vault_rag.Table.{select, count, order_by}
use personal_vault_rag.Table.Laws.{All-map}
use personal_vault_rag.Table.Rows.{Place, count_mono}
use personal_vault_rag.Table.Unique.{fetch_one-Place_only, All-Place}
use personal_vault_rag.Table.Ordered.{
  IsOrdered, All-order_by, order_by-IsOrdered, All-selected, take-IsOrdered,
}
use personal_vault_rag.Security.{Principal, require}
use personal_vault_rag.Artifacts.{is_pending, is_open, is_fresh}
use personal_vault_rag.Artifacts.Requests.{pending_artifacts, content_of, artifact_content}

module _ (p : Principal) (stamp : ℕ) (is_file : String → Bool)
    (artifacts : List PendingArtifact) where
  -- A request for the artifact's content is answered from its row.
  abbrev pub IsFetched : PendingArtifact → Type 0
  IsFetched a =
      (a.vault_id ≡ p.vault_id)
      × (artifact_content p stamp is_file a.id artifacts ≡ content_of is_file a)

  listed-IsFetched :
      ((id : String) → count (λ b. same b.id id) artifacts ≤ 1)
      → require p "ingest" ≡ ok tt
      → (a : PendingArtifact)
      → (same a.vault_id p.vault_id && is_pending a.state && is_fresh stamp a) ≡ true
      → Place a artifacts
      → IsFetched a
  unfolding artifact_content
  listed-IsFetched unique allowed a h at =
      let (vs, fresh) = and_parts _ (is_fresh stamp a) h in
      let (v, pending) = and_parts (same a.vault_id p.vault_id) (is_pending a.state) vs in
      let test : PendingArtifact → Bool = λ b. is_open p.vault_id a.id b && is_fresh stamp b in
      let one : count test artifacts ≤ 1 = omega (
        arith,
        unique a.id,
        count_mono test (λ b. same b.id a.id) artifacts
            (All-map (λ b _ e. ground arith) artifacts (All-Place artifacts)),
      ) in
      let fits : test a ≡ true = rw (v, same_refl, pending, fresh) refl in
      let found = fetch_one-Place_only test artifacts a at one fits in
      ((same_iff _ _).0 v, rw (allowed, found, artifact_content) refl)

  -- Where identifiers are unique, a connector is told of twenty artifacts at most, the older ones before
  -- the younger; each is of its vault, and a request for the content of one at the same time is answered
  -- from its row.
  pub pending_artifacts-IsFetched :
      (listed : List PendingArtifact)
      → ((id : String) → count (λ b. same b.id id) artifacts ≤ 1)
      → pending_artifacts p stamp artifacts ≡ ok listed
      → (length listed ≤ 20) × IsOrdered (λ a. a.created_at) listed × All IsFetched listed
  unfolding pending_artifacts
  pending_artifacts-IsFetched listed unique h = elim (Result-cases (require p "ingest")) [
    | inr (e, f) ↦ absurd (ground arith)
    | inl (u, f) ↦
        let waits : PendingArtifact → Bool =
          λ a. same a.vault_id p.vault_id && is_pending a.state && is_fresh stamp a in
        let sorted = order_by (λ a. a.created_at) (select waits artifacts) in
        let q : take 20 sorted ≡ listed = ground arith in
        subst (λ l. (length l ≤ 20) × IsOrdered (λ a. a.created_at) l × All IsFetched l) q
          (
            rw length-take (omega arith),
            take-IsOrdered (λ a. a.created_at) 20 sorted (order_by-IsOrdered (λ a. a.created_at) _),
            All-take IsFetched 20 sorted (
                All-order_by (λ a. a.created_at) IsFetched _
                  (All-map (λ a e. listed-IsFetched unique f a e.0 e.1) _
                    (All-selected (λ a. Place a artifacts) waits artifacts (All-Place artifacts)))),
          )
  ]
