-- ===== src/Manifest/Digest.antt =====
-- `file_sha256` of ledgerflow/manifest.py: the digest of a file, one chunk after the other.
use ledgerflow_payment_recon.Prelude.{
  ℕ, zero, suc, ◌*◌, ◌≤◌, ◌<◌, String, ◌≡◌, refl, sym, ap, ◌∙◌, List, [], ◌∷◌, ◌++◌, length, arith,
}
use ledgerflow_payment_recon.Manifest.{Hasher, IsIncremental}

-- `stream.read(size)` on what is left: the next bytes, and the rest.
unfoldable pub take : ℕ → List ℕ → List ℕ
take zero bytes = []
take (suc n) [] = []
take (suc n) (b ∷ bytes) = b ∷ take n bytes

unfoldable pub drop : ℕ → List ℕ → List ℕ
drop zero bytes = bytes
drop (suc n) [] = []
drop (suc n) (b ∷ bytes) = drop n bytes

module _ (h : Hasher) where
  -- `for chunk in iter(lambda: stream.read(size), b"")`: an empty chunk ends it, and fuel bounds it.
  after_chunk : List ℕ → h.Digest → h.Digest → h.Digest
  after_chunk [] d rest = d
  after_chunk (b ∷ chunk) d rest = rest

  digest_chunks : ℕ → ℕ → List ℕ → h.Digest → h.Digest
  unfolding take drop after_chunk
  digest_chunks zero size bytes d = d
  digest_chunks (suc fuel) size bytes d =
      let chunk = take size bytes in
      let rest = digest_chunks fuel size (drop size bytes) (h.update d chunk) in
      after_chunk chunk d rest

  -- The fuel is one call for each byte, and one for the end of the file.
  unfoldable pub file_sha256 : List ℕ → String
  unfolding digest_chunks
  file_sha256 content =
      h.hexdigest (digest_chunks (suc (length content)) (1024 * 1024) content h.initial)

take-drop : (n : ℕ) (bytes : List ℕ) → take n bytes ++ drop n bytes ≡ bytes
unfolding take drop
take-drop zero bytes = refl
take-drop (suc n) [] = refl
take-drop (suc n) (b ∷ bytes) = ap (λ l. b ∷ l) (take-drop n bytes)

length-drop : (n : ℕ) (bytes : List ℕ) → length (drop n bytes) ≤ length bytes
unfolding drop
length-drop zero bytes = omega arith
length-drop (suc n) [] = omega arith
length-drop (suc n) (b ∷ bytes) = omega (arith, length-drop n bytes)

module _ (h : Hasher) (law : IsIncremental h) where
  digest_chunks_lem :
      (fuel n : ℕ) (bytes : List ℕ) (d : h.Digest)
      → length bytes < fuel
      → digest_chunks h fuel (suc n) bytes d ≡ h.update d bytes
  unfolding digest_chunks take drop
  digest_chunks_lem zero n bytes d enough = absurd (omega (arith, enough))
  digest_chunks_lem (suc fuel) n [] d enough = sym (law.update-nil d)
  digest_chunks_lem (suc fuel) n (b ∷ bytes) d enough =
      let shorter = length-drop n bytes in
      digest_chunks_lem fuel n (drop n bytes) (h.update d (b ∷ take n bytes))
        (omega (arith, enough, shorter))
      ∙ law.update-append d (b ∷ take n bytes) (drop n bytes)
      ∙ ap (λ l. h.update d (b ∷ l)) (take-drop n bytes)

  -- The chunked loop of file_sha256 comes to the end of every file, and with a digest whose
  -- repeated updates are one update, its result is the digest of the whole content.
  pub file_sha256_lem :
      (content : List ℕ) → file_sha256 h content ≡ h.hexdigest (h.update h.initial content)
  unfolding file_sha256
  file_sha256_lem content =
      ap h.hexdigest
        (digest_chunks_lem (suc (length content)) 1048575 content h.initial (omega arith))
