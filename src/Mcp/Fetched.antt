-- ===== src/Mcp/Fetched.antt =====
-- What `_download_openai_file` of app/mcp_server.py requests and keeps.
use mathlib.Core.List.{append_assoc, append-nil, flatten}
use personal_vault_rag.Prelude.{
  All, All-append, Bool, Bool-cases, List, Result, Result-cases, String, [], arith, false, inl, inr,
  length, length-append, ltb, not, ok, or_else, raise, refl, same, suc, sym, true, zero, ℕ, ◌+◌,
  ◌++◌, ◌∙◌, ◌∷◌, ◌≡◌, ◌≤◌, ◌||◌,
}
use personal_vault_rag.Table.{fetch_one}
use personal_vault_rag.Table.Each.{has}
use personal_vault_rag.Ingest.{Bytes, StagedFile, has_path}
use personal_vault_rag.Mcp.Download.{
  ParsedUrl, Address, is_blocked, redirect, broken, body, Network, is_empty, port_given,
  safe_remote_url, write_blocks, attempts, store, download_openai_file,
}

-- The address has none of the four properties that are asked.
abbrev pub IsUnblocked : Address → Type 0
IsUnblocked a =
    (a.is_private ≡ false)
    × (a.is_loopback ≡ false)
    × (a.is_link_local ≡ false)
    × (a.is_reserved ≡ false)

all-IsUnblocked :
    (addresses : List Address) → has is_blocked addresses ≡ false → All IsUnblocked addresses
unfolding fetch_one
all-IsUnblocked [] h = tt
all-IsUnblocked (a ∷ addresses) h = elim (Bool-cases (is_blocked a)) [
  | inl e ↦ absurd (ground arith)
  | inr e ↦ (ground arith, all-IsUnblocked addresses (ground arith))
]

module _ (network : Network) where
  -- The URL is HTTPS with a host, and when it was checked no address of the host was private,
  -- loopback, link-local or reserved.
  pub record IsChecked (url : String) : Type 0 where
    pub parsed : ParsedUrl
    pub addresses : List Address
    pub parses : network.urlparse url ≡ ok parsed
    pub https : same parsed.scheme "https" ≡ true
    pub hosted : is_empty parsed.hostname ≡ false
    pub resolves :
        network.getaddrinfo (or_else parsed.hostname "") (port_given parsed.port) ≡ ok addresses
    pub unblocked : All IsUnblocked addresses

  safe_remote_url-IsChecked :
      (url : String) (u : Unit {0}) → safe_remote_url network url ≡ ok u → IsChecked url
  unfolding safe_remote_url
  safe_remote_url-IsChecked url u h = elim (Result-cases (network.urlparse url)) [
    | inr (e, f) ↦ absurd (ground arith)
    | inl (parsed, f) ↦
        elim (Bool-cases (not (same parsed.scheme "https") || is_empty parsed.hostname)) [
          | inl g ↦ absurd (ground arith)
          | inr g ↦
              elim (Result-cases
                (network.getaddrinfo (or_else parsed.hostname "") (port_given parsed.port))) [
                  | inr (e, k) ↦ absurd (ground arith)
                  | inl (addresses, k) ↦ record {
                    parsed = parsed;
                    addresses = addresses;
                    parses = f;
                    https = ground arith;
                    hosted = ground arith;
                    resolves = k;
                    unblocked = all-IsUnblocked addresses (ground arith);
                  }
                ]
        ]
  ]

  module _ (max_upload_bytes : ℕ) (exists : Bool) where
    -- What a number of attempts requests: checked URLs, one at most for each attempt.
    abbrev IsCareful : ℕ → List String → List String × Result String Bytes → Type 0
    IsCareful n requested r = All IsChecked r.0 × (length r.0 ≤ length requested + n)

    attempts-IsCareful :
        (n : ℕ) (url : String) (requested : List String)
        → All IsChecked requested
        → IsCareful n requested (attempts network max_upload_bytes exists n url requested)
    unfolding attempts
    attempts-IsCareful zero url requested h = (h, omega arith)
    attempts-IsCareful (suc n) url requested h = elim (Result-cases (safe_remote_url network url)) [
      | inr (e, f) ↦ rw (f, attempts) (h, omega arith)
      | inl (u, f) ↦
          let public = safe_remote_url-IsChecked url u f in
          let asked : All IsChecked (requested ++ url ∷ []) =
            All-append IsChecked requested (url ∷ []) h (public, tt) in
          let longer : length (requested ++ url ∷ []) ≡ length requested + 1 =
            length-append requested (url ∷ []) in
          let done : length (requested ++ url ∷ []) ≤ length requested + suc n = omega arith in
          elim (Result-cases (network.get url)) [
            | inr (e, g) ↦ rw (f, g, attempts) (asked, done)
            | inl (broken e, g) ↦ rw (f, g, attempts) (asked, done)
            | inl (body declared blocks, g) ↦ elim (Bool-cases (ltb max_upload_bytes declared)) [
              | inl k ↦ rw (f, g, k, attempts) (asked, done)
              | inr k ↦ elim (Bool-cases exists) [
                | inl l ↦ rw (f, g, k, l, attempts) (asked, done)
                | inr l ↦ rw (f, g, k, l, attempts) (asked, done)
              ]
            ]
            | inl (redirect location, g) ↦ elim (Bool-cases (is_empty location)) [
              | inl k ↦ rw (f, g, k, attempts) (asked, done)
              | inr k ↦
                  let (p, l) =
                    attempts-IsCareful n (or_else location "") (requested ++ url ∷ []) asked in
                  rw (f, g, k, attempts) (p, omega arith)
            ]
          ]
    ]

    -- Blocks that are written are written whole and in order, and are within the limit.
    write_blocks-ok :
        (total : ℕ) (written : Bytes) (blocks : List Bytes) (bytes : Bytes)
        → total ≤ max_upload_bytes
        → write_blocks network max_upload_bytes total written blocks ≡ ok bytes
        → (bytes ≡ written ++ flatten blocks) × (total + length (flatten blocks) ≤ max_upload_bytes)
    unfolding write_blocks flatten
    write_blocks-ok total written [] bytes h e =
        let q : written ≡ bytes = ground arith in (sym q ∙ sym (append-nil written), omega arith)
    write_blocks-ok total written (block ∷ blocks) bytes h e =
        elim (Bool-cases (ltb max_upload_bytes (total + length block))) [
          | inl f ↦ absurd (ground arith)
          | inr f ↦
              let (w, l) =
                write_blocks-ok (total + length block) (written ++ block) blocks bytes
                  (ground arith) (rw f at e) in
              (
                w ∙ append_assoc written block (flatten blocks),
                omega (arith, length-append block (flatten blocks)),
              )
        ]

    -- The bytes are the body of a response, whole, and are within the limit.
    pub record IsBody (bytes : Bytes) : Type 0 where
      pub url : String
      pub declared : ℕ
      pub blocks : List Bytes
      pub response : network.get url ≡ ok (body declared blocks)
      pub whole : bytes ≡ flatten blocks
      pub bounded : length bytes ≤ max_upload_bytes
      pub fresh : exists ≡ false

    attempts-IsBody :
        (n : ℕ) (url : String) (requested : List String) (bytes : Bytes)
        → (attempts network max_upload_bytes exists n url requested).1 ≡ ok bytes
        → IsBody bytes
    unfolding attempts
    attempts-IsBody zero url requested bytes h = absurd (ground arith)
    attempts-IsBody (suc n) url requested bytes h =
        elim (Result-cases (safe_remote_url network url)) [
          | inr (e, f) ↦ absurd (ground arith)
          | inl (u, f) ↦ elim (Result-cases (network.get url)) [
            | inr (e, g) ↦ absurd (ground arith)
            | inl (broken e, g) ↦ absurd (ground arith)
            | inl (body declared blocks, g) ↦ elim (Bool-cases (ltb max_upload_bytes declared)) [
              | inl k ↦ absurd (ground arith)
              | inr k ↦ elim (Bool-cases exists) [
                | inl l ↦ absurd (ground arith)
                | inr l ↦
                    let (w, m) =
                      write_blocks-ok 0 [] blocks bytes (omega arith)
                        (rw (f, g, k, l, attempts) at h) in
                    record {
                      url = url;
                      declared = declared;
                      blocks = blocks;
                      response = g;
                      whole = w;
                      bounded = rw w (omega arith);
                      fresh = l;
                    }
              ]
            ]
            | inl (redirect location, g) ↦ elim (Bool-cases (is_empty location)) [
              | inl k ↦ absurd (ground arith)
              | inr k ↦
                  attempts-IsBody n (or_else location "") (requested ++ url ∷ []) bytes
                    (rw (f, g, k, attempts) at h)
            ]
          ]
        ]

  module _ (max_upload_bytes : ℕ) (supported : Bool) (suffix target download_url : String)
      (files : List StagedFile) where
    store-requests : (r : List String × Result String Bytes) → (store target files r).0.1 ≡ r.0
    store-requests (requested, raise e) = refl
    store-requests (requested, ok bytes) = refl

    -- A download requests four URLs at most, and only URLs that are HTTPS and whose host, when it was
    -- checked, resolved to no address that is private, loopback, link-local or reserved.
    pub download_openai_file-IsChecked :
        let requested =
          (download_openai_file network max_upload_bytes supported suffix target download_url
            files).0.1 in
        All IsChecked requested × (length requested ≤ 4)
    unfolding download_openai_file
    download_openai_file-IsChecked =
        let exists = has (has_path target) files in
        let r = attempts network max_upload_bytes exists 4 download_url [] in
        elim (Bool-cases (not supported)) [
          | inl e ↦ rw (e, download_openai_file) (tt, omega arith)
          | inr e ↦
              rw (e, download_openai_file, store-requests r)
                (attempts-IsCareful max_upload_bytes exists 4 download_url [] tt)
        ]

    store-ok :
        (r : List String × Result String Bytes) (after : List StagedFile) (requested : List String)
        (path : String)
        → store target files r ≡ ((after, requested), ok path)
        → (path ≡ target)
          × ((bytes : Bytes) × (after ≡ files ++ (target, bytes) ∷ []) × (r.1 ≡ ok bytes))
    store-ok (asked, raise e) after requested path h = absurd (ground arith)
    store-ok (asked, ok bytes) after requested path h = (ground arith, (bytes, ground arith, refl))

    -- A download that ends has stored one new file: the whole body of a response, within the limit.
    pub download_openai_file-IsBody :
        (after : List StagedFile) (requested : List String) (path : String)
        → download_openai_file network max_upload_bytes supported suffix target download_url files
          ≡ ((after, requested), ok path)
        → (path ≡ target)
          × ((bytes : Bytes) × (after ≡ files ++ (target, bytes) ∷ [])
              × IsBody max_upload_bytes (has (has_path target) files) bytes)
    unfolding download_openai_file
    download_openai_file-IsBody after requested path h =
        let exists = has (has_path target) files in
        let r = attempts network max_upload_bytes exists 4 download_url [] in
        elim (Bool-cases (not supported)) [
          | inl e ↦ absurd (ground arith)
          | inr e ↦
              let (p, (bytes, q, k)) =
                store-ok r after requested path (rw (e, download_openai_file) at h) in
              (p, (bytes, q, attempts-IsBody max_upload_bytes exists 4 download_url [] bytes k))
        ]
