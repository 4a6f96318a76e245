-- ===== src/Mcp/Download.antt =====
-- `_safe_remote_url` and `_download_openai_file` of app/mcp_server.py: what is requested, and what is
-- written. The parsing and joining of URLs, the resolution of names, the responses and the name of
-- the staged file are arguments.
use personal_vault_rag.Prelude.{
  Bool, List, Option, Result, String, [], concat, if◌then◌else◌, length, ltb, none, not, ok,
  or_else, raise, raise_if, same, some, suc, true, zero, ℕ, ◌==◌, ◌+◌, ◌++◌, ◌>>◌, ◌||◌, ◌∷◌,
}
use personal_vault_rag.Table.Each.{has}
use personal_vault_rag.Ingest.{Bytes, StagedFile, has_path, unlink}

-- `urlparse(url)`
pub record ParsedUrl : Type 0 where
  pub scheme : String
  pub hostname : Option String
  pub port : Option ℕ

-- The properties of an IP address that are asked.
pub record Address : Type 0 where
  pub is_private : Bool
  pub is_loopback : Bool
  pub is_link_local : Bool
  pub is_reserved : Bool

abbrev pub is_blocked : Address → Bool
is_blocked a = a.is_private || a.is_loopback || a.is_link_local || a.is_reserved

-- What a GET answers: a redirect with the URL that its `location` header joins to, if it has one; an
-- error of `raise_for_status` or of the header's number; or a body with its declared length.
pub data Response : Type 0 where
  redirect : (location : Option String) → Response
  broken : (error : String) → Response
  body : (declared : ℕ) (blocks : List Bytes) → Response

pub record Network : Type 0 where
  pub urlparse : String → Result String ParsedUrl
  pub getaddrinfo : (hostname : String) (port : ℕ) → Result String (List Address)
  pub get : (url : String) → Result String Response

abbrev pub is_empty : Option String → Bool
is_empty none = true
is_empty (some s) = same s ""

abbrev pub byte_limit : String
byte_limit = "Attachment exceeds the configured byte limit"

-- The end of the `try`: the staged files, the requests and the path of the new file.
abbrev pub store :
    (target : String)
    → List StagedFile
    → List String × Result String Bytes
    → (List StagedFile × List String) × Result String String
store target files (requested, raise e) = ((unlink target files, requested), raise e)
store target files (requested, ok bytes) = ((files ++ (target, bytes) ∷ [], requested), ok target)

-- `port or 443`
abbrev pub port_given : Option ℕ → ℕ
port_given none = 443
port_given (some n) = if n == 0 then 443 else n

module _ (network : Network) where
  unfoldable pub safe_remote_url : (url : String) → Result String (Unit {0})
  safe_remote_url url = elim (network.urlparse url) [
    | raise e ↦ raise e
    | ok parsed ↦
        raise_if (not (same parsed.scheme "https") || is_empty parsed.hostname)
          "Attachment download URL must be HTTPS"
        >> elim (network.getaddrinfo (or_else parsed.hostname "") (port_given parsed.port)) [
          | raise e ↦ raise e
          | ok addresses ↦
              raise_if (has is_blocked addresses) "Attachment URL resolves to a non-public address"
        ]
  ]

  module _ (max_upload_bytes : ℕ) where
    -- The loop over the blocks of a body.
    unfoldable pub write_blocks : (total : ℕ) (written : Bytes) → List Bytes → Result String Bytes
    write_blocks total written [] = ok written
    write_blocks total written (block ∷ blocks) =
        let sum = total + length block in
        let rest = write_blocks sum (written ++ block) blocks in
        if ltb max_upload_bytes sum then raise byte_limit else rest

    -- The attempts that are left: the URLs that were requested, and the bytes that were written.
    -- `exists` says whether the staged file's name is taken.
    unfoldable pub attempts :
        (exists : Bool)
        → ℕ
        → (current_url : String) (requested : List String) → List String × Result String Bytes
    unfolding write_blocks
    attempts exists zero url requested = (requested, raise "Attachment exceeded the redirect limit")
    attempts exists (suc n) url requested =
        let next : String → List String × Result String Bytes =
          λ location. attempts exists n location (requested ++ url ∷ []) in
        elim (safe_remote_url url) [
          | raise e ↦ (requested, raise e)
          | ok _ ↦ elim (network.get url) [
            | raise e ↦ (requested ++ url ∷ [], raise e)
            | ok (broken e) ↦ (requested ++ url ∷ [], raise e)
            | ok (redirect location) ↦
                if is_empty location
                then (requested ++ url ∷ [], raise "Attachment redirect has no destination")
                else next (or_else location "")
            | ok (body declared blocks) ↦
                if ltb max_upload_bytes declared
                then (requested ++ url ∷ [], raise byte_limit)
                else if exists
                then (requested ++ url ∷ [], raise "FileExistsError")
                else (requested ++ url ∷ [], write_blocks 0 [] blocks)
          ]
        ]

    -- The staged files, the requests and the path of the new file.
    unfoldable pub download_openai_file :
        (supported : Bool) (suffix target download_url : String)
        → List StagedFile
        → (List StagedFile × List String) × Result String String
    unfolding attempts
    download_openai_file supported suffix target download_url files =
        if not supported
        then (
          (files, []),
          raise (
              concat "Unsupported attachment type: " (if same suffix "" then "(none)" else suffix)),
        )
        else store target files (attempts (has (has_path target) files) 4 download_url [])
