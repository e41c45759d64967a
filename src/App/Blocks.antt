-- ===== src/App/Blocks.antt =====
-- app/src/app.rs: the byte form of a list of block ids (`encode_blocks`, `decode_blocks`).
use zodia.Prelude.{
  bytes_of, number_of, number_of-bytes_of, ℕ, zero, suc, ◌/◌, ◌%◌, ◌^◌, ◌<◌, ◌≡◌, refl, ap, ◌∙◌,
  List, [], ◌∷◌, ◌++◌, Bytes, All, append_one,
}

unfoldable pub encode_blocks : List ℕ → Bytes
unfolding bytes_of
encode_blocks [] = []
encode_blocks (b ∷ bs) = bytes_of 16 b ++ encode_blocks bs

-- `chunks_exact(16)`: a chunk is taken when its last byte arrives, a remainder is dropped.
unfoldable chunks : ℕ → Bytes → Bytes → List ℕ
unfolding number_of
chunks missing taken [] = []
chunks zero taken (x ∷ xs) = let rest = chunks 15 [] xs in number_of (taken ++ x ∷ []) ∷ rest
chunks (suc missing) taken (x ∷ xs) = chunks missing (taken ++ x ∷ []) xs

unfoldable pub decode_blocks : Bytes → List ℕ
unfolding chunks
decode_blocks bytes = chunks 15 [] bytes

chunks-bytes_of :
    (missing : ℕ) (taken : Bytes) (v : ℕ) (rest : Bytes)
    → chunks missing taken (bytes_of (suc missing) v ++ rest)
      ≡ number_of (taken ++ bytes_of (suc missing) v) ∷ chunks 15 [] rest
unfolding chunks bytes_of
chunks-bytes_of zero taken v rest = refl
chunks-bytes_of (suc missing) taken v rest =
    chunks-bytes_of missing (taken ++ v % 256 ∷ []) (v / 256) rest
    ∙ ap (λ xs. number_of xs ∷ chunks 15 [] rest) (append_one taken (v % 256) _)

-- A list of ids of 16 bytes each is read back from its byte form.
pub decode_blocks-encode_blocks :
    (blocks : List ℕ)
    → All (λ b. b < 256 ^ 16) blocks
    → decode_blocks (encode_blocks blocks) ≡ blocks
unfolding decode_blocks encode_blocks
decode_blocks-encode_blocks [] h = unfold chunks in refl
decode_blocks-encode_blocks (b ∷ bs) h =
    chunks-bytes_of 15 [] b (encode_blocks bs)
    ∙ rw (number_of-bytes_of 16 b h.0) (ap (λ xs. b ∷ xs) (decode_blocks-encode_blocks bs h.1))
