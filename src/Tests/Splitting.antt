-- ===== src/Tests/Splitting.antt =====
-- A run of the splitting of texts.
use personal_vault_rag.Prelude.{All, arith, codes, ℕ, ◌≡◌}
use personal_vault_rag.Extraction.{ExtractedChunk, split}
use personal_vault_rag.Extraction.Strip.{Text}
use personal_vault_rag.Extraction.Bounds.{Fits}
use personal_vault_rag.Extraction.Ink.{ink, ink_all, texts, split-IsWhole}

abbrev lines : Text
lines = codes "one two three\n\nfour"

split-IsWhole_example :
    All (λ (c : ExtractedChunk ℕ). Fits 8 c.text) (split lines 1 "Title" "text" 8)
    × (ink_all (texts {L = ℕ} (split lines 1 "Title" "text" 8)) ≡ ink lines)
split-IsWhole_example = split-IsWhole lines 1 "Title" "text" 8 (omega arith)
