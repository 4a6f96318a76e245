-- ===== src/Catalog/Deletions.antt =====
-- What a reconciliation of app/catalog.py does to each document, and to what is derived from it.
use mathlib.Core.List.{map-map}
use personal_vault_rag.Prelude.{
  All, Bool, Bool-cases, List, String, [], ap, arith, false, if◌then◌else◌, inl, inr, leb, ltb, map,
  not, refl, same, same_iff, same_refl, subst, sym, true, ℕ, ◌&&◌, ◌==◌, ◌||◌, ◌∙◌, ◌∷◌, ◌≡◌,
}
use personal_vault_rag.Db.{Document, Availability}
use personal_vault_rag.Table.{select, update}
use personal_vault_rag.Table.Laws.{All-map, All-of}
use personal_vault_rag.Table.Each.{update-map, map_cong}
use personal_vault_rag.Catalog.{
  Catalog, Derived, is_document, is_live, missed, removed, available, delete_document,
  delete_documents, complete_reconcile,
}

abbrev pub same_key : Document → Document → Bool
same_key d e = same d.vault_id e.vault_id && same d.id e.id

-- PRIMARY KEY (vault_id, id)
abbrev pub IsKeyed : List Document → Type 0
IsKeyed [] = Unit
IsKeyed (d ∷ ds) = All (λ e. same_key d e ≡ false) ds × IsKeyed ds

pub IsKeyed-map :
    (f : Document → Document)
    → ((d : Document) → ((f d).vault_id ≡ d.vault_id) × ((f d).id ≡ d.id))
    → (ds : List Document) → IsKeyed ds
    → IsKeyed (map f ds)
IsKeyed-map f keeps [] h = tt
IsKeyed-map f keeps (d ∷ ds) h = (later ds h.0, IsKeyed-map f keeps ds h.1)
  where
    later :
        (es : List Document)
        → All (λ e. same_key d e ≡ false) es
        → All (λ e. same_key (f d) e ≡ false) (map f es)
    later [] k = tt
    later (e ∷ es) k = (rw ((keeps d).0, (keeps d).1, (keeps e).0, (keeps e).1) k.0, later es k.1)

-- What a scan of `source_id` that ended, complete or not, makes of a document.
unfoldable pub reconciled :
    (vault_id source_id : String) (stamp confirmations generation : ℕ) (complete : Bool)
    → Document
    → Document
reconciled vault_id source_id stamp confirmations generation complete d =
    if not (is_live vault_id source_id d)
    then d
    else if not complete
    then available Availability.source_offline d
    else let now : Document = if ltb d.last_seen_generation generation then missed d else d in
      if leb confirmations now.missing_confirmations
      then removed stamp now
      else if d.last_seen_generation == generation
      then available Availability.source_online now
      else now

module _ (vault_id : String) where
  -- One of the rows is the document.
  listed : List Document → Document → Bool
  listed [] d = false
  listed (r ∷ rs) d = is_document vault_id r.id d || listed rs d

  is_document_other :
      (x d : Document)
      → x.vault_id ≡ vault_id
      → same_key x d ≡ false
      → is_document vault_id x.id d ≡ false
  is_document_other x d mine other = ground (
    arith,
    same_iff d.vault_id vault_id,
    same_iff d.id x.id,
    same_iff x.vault_id d.vault_id,
    same_iff x.id d.id,
  )

  module _ (q : Document → Bool) (mine : (d : Document) → q d ≡ true → d.vault_id ≡ vault_id) where
    listed_other :
        (x : Document) (ds : List Document)
        → All (λ e. same_key x e ≡ false) ds
        → listed (select q ds) x ≡ false
    unfolding listed select
    listed_other x [] h = refl
    listed_other x (d ∷ ds) h = ground (
      arith,
      listed_other x ds h.1,
      mine d,
      same_iff x.vault_id d.vault_id,
      same_iff x.id d.id,
      same_iff x.vault_id vault_id,
      h.0,
    )

    listed_more :
        (x : Document) (rows ds : List Document)
        → x.vault_id ≡ vault_id
        → All (λ e. same_key x e ≡ false) ds
        → All (λ d. listed rows d ≡ q d) ds
        → All (λ d. listed (x ∷ rows) d ≡ q d) ds
    listed_more x rows [] own h k = tt
    listed_more x rows (d ∷ ds) own h k =
        (unfold listed in rw (is_document_other x d own h.0) k.0, listed_more x rows ds own h.1 k.1)

    -- Where keys differ, the rows selected from a vault are the documents that fit.
    listed-select : (ds : List Document) → IsKeyed ds → All (λ d. listed (select q ds) d ≡ q d) ds
    listed-select [] h = tt
    listed-select (x ∷ xs) h = elim (Bool-cases (q x)) [
      | inl e ↦
          let taken : select q (x ∷ xs) ≡ x ∷ select q xs = unfold select in rw e refl in
          subst (λ l. All (λ d. listed l d ≡ q d) (x ∷ xs)) (sym taken)
            (first e, listed_more x (select q xs) xs (mine x e) h.0 (listed-select xs h.1))
      | inr e ↦
          let left : select q (x ∷ xs) ≡ select q xs = unfold select in rw e refl in
          subst (λ l. All (λ d. listed l d ≡ q d) (x ∷ xs)) (sym left)
            (listed_other x xs h.0 ∙ sym e, listed-select xs h.1)
    ]
      where
        first : q x ≡ true → listed (x ∷ select q xs) x ≡ q x
        first e = unfold listed in rw (e, mine x e, same_refl vault_id, same_refl x.id) refl

module _ (vault_id : String) (stamp : ℕ) where
  abbrev remove_listed : List Document → Document → Document
  remove_listed rows d = if listed vault_id rows d then removed stamp d else d

  listed-removed :
      (rs : List Document) (d : Document)
      → listed vault_id rs (removed stamp d) ≡ listed vault_id rs d
  unfolding listed
  listed-removed [] d = refl
  listed-removed (r ∷ rs) d = ap (λ b. is_document vault_id r.id d || b) (listed-removed rs d)

  remove_listed-removed :
      (rs : List Document) (d : Document) → remove_listed rs (removed stamp d) ≡ removed stamp d
  remove_listed-removed rs d = rw (listed-removed rs d) (ground arith)

  remove_listed-step :
      (r : Document) (rs : List Document) (d : Document)
      → remove_listed rs (if is_document vault_id r.id d then removed stamp d else d)
        ≡ remove_listed (r ∷ rs) d
  unfolding listed
  remove_listed-step r rs d = elim (Bool-cases (is_document vault_id r.id d)) [
    | inr e ↦ rw e refl
    | inl e ↦ rw e (remove_listed-removed rs d)
  ]

  remove_listed_nothing : (ds : List Document) → map (remove_listed []) ds ≡ ds
  unfolding listed
  remove_listed_nothing [] = refl
  remove_listed_nothing (d ∷ ds) = ap (λ l. d ∷ l) (remove_listed_nothing ds)

  delete_documents-documents :
      (uuid : String → String) (rows : List Document) (c : Catalog) (files : Derived)
      → (delete_documents vault_id stamp uuid rows (c, files)).0.documents
        ≡ map (remove_listed rows) c.documents
  unfolding delete_documents
  delete_documents-documents uuid [] c files = sym (remove_listed_nothing c.documents)
  delete_documents-documents uuid (r ∷ rs) c files =
      let next = delete_document vault_id stamp uuid r (c, files) in
      delete_documents-documents uuid rs next.0 next.1
      ∙ ap (map (remove_listed rs))
          (update-map (is_document vault_id r.id) (removed stamp) c.documents)
      ∙ map-map _ _ c.documents
      ∙ ap (λ f. map f c.documents) (λ i d. remove_listed-step r rs d i)

-- On tables with primary keys, a reconciliation treats each document of the vault by itself, as
-- `reconciled` says, and changes no document's place: after a scan that was not complete the live
-- documents of the source are offline and none is deleted; after a complete one, a live document
-- that the scan did not see counts one more miss, it is deleted if its misses reach the configured
-- number, and those seen are online. Documents of other sources and vaults stay as they are.
pub complete_reconcile-documents :
    (vault_id : String) (stamp : ℕ) (uuid : String → String) (c : Catalog) (confirmations : ℕ)
    (source_id : String) (generation : ℕ) (complete : Bool)
    → IsKeyed c.documents
    → let r =
        complete_reconcile vault_id stamp uuid c confirmations source_id generation complete in
      r.0.0.documents
      ≡ map (reconciled vault_id source_id stamp confirmations generation complete) c.documents
unfolding complete_reconcile reconciled
complete_reconcile-documents vault_id stamp uuid c conf source_id gen false keyed =
    update-map _ _ c.documents ∙ map_cong _ _ c.documents (All-of (λ d. ground arith) c.documents)
complete_reconcile-documents vault_id stamp uuid c conf source_id gen true keyed =
    let behind : Document → Bool =
      λ d. is_live vault_id source_id d && ltb d.last_seen_generation gen in
    let due : Document → Bool =
      λ d. is_live vault_id source_id d && leb conf d.missing_confirmations in
    let count_miss : Document → Document = λ d. if behind d then missed d else d in
    let remove : Document → Document = λ d. if due d then removed stamp d else d in
    let counted = update behind missed c.documents in
    let is_map = update-map behind missed c.documents in
    let keyed' : IsKeyed counted =
      subst IsKeyed (sym is_map)
        (IsKeyed-map count_miss (λ d. (ground arith, ground arith)) c.documents keyed) in
    let each =
      All-map (λ d e. ap (λ b. if b then removed stamp d else d) e) counted
        (listed-select vault_id due (λ d e. (same_iff _ _).0 (ground arith)) counted keyed') in
    let kept = map_cong (remove_listed vault_id stamp (select due counted)) remove counted each in
    update-map _ _ _
    ∙ ap (map _) (
        delete_documents-documents vault_id stamp uuid (select due counted) _ _
        ∙ kept
        ∙ ap (map remove) is_map
        ∙ map-map remove count_miss c.documents)
    ∙ map-map _ _ c.documents
    ∙ map_cong _ _ c.documents (All-of (λ d. ground arith) c.documents)
