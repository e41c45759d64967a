-- ===== src/Crypto/Sessions.antt =====
-- The two ends of a handshake: the keys that each derives.
use zodia.Prelude.{
  ℕ, ◌<◌, ◌^◌, ◌≡◌, ◌≢◌, sym, ap, ◌∙◌, ◌++◌, Bytes, codes, take, drop, take-append, drop-append,
  bytes_of, number_of, number_of-bytes_of, length-bytes_of,
}
use zodia.Crypto.{Ciphers, LocalPrekeys, PeerPrekeys, derived_key, derive_session_key}
use zodia.Crypto.Relay.{Agrees}

-- What a peer publishes of its prekeys.
abbrev pub published : Ciphers → LocalPrekeys → PeerPrekeys
published c l = record {
  prekey = c.public_of l.prekey_secret;
  ephemeral = c.public_of l.ephemeral_secret;
}

-- The key material that a peer assembles: the three agreements in its own order.
abbrev pub material : Ciphers → LocalPrekeys → PeerPrekeys → Bytes
material c local peer =
    bytes_of 32 (c.diffie_hellman local.ephemeral_secret peer.ephemeral)
    ++ (bytes_of 32 (c.diffie_hellman local.ephemeral_secret peer.prekey)
        ++ bytes_of 32 (c.diffie_hellman local.prekey_secret peer.ephemeral))

-- The derivation of session keys does not collide on these two materials.
abbrev pub IsCollisionFree : Ciphers → Bytes → Bytes → Type 0
IsCollisionFree c x y =
    derived_key c (codes "zodia.net 2024 tier-1 session key v1") x
      ≡ derived_key c (codes "zodia.net 2024 tier-1 session key v1") y
    → x ≡ y

bytes_injective : (v w : ℕ) → v < 256 ^ 32 → w < 256 ^ 32 → bytes_of 32 v ≡ bytes_of 32 w → v ≡ w
bytes_injective v w hv hw e =
    sym (number_of-bytes_of 32 v hv) ∙ ap number_of e ∙ number_of-bytes_of 32 w hw

second : ℕ → ℕ → ℕ → Bytes
second a b d = take 32 (drop 32 (bytes_of 32 a ++ (bytes_of 32 b ++ bytes_of 32 d)))

second-is : (a b d : ℕ) → second a b d ≡ bytes_of 32 b
unfolding second
second-is a b d =
    rw (drop-append 32 (bytes_of 32 a) (bytes_of 32 b ++ bytes_of 32 d) (length-bytes_of 32 a))
      (take-append 32 (bytes_of 32 b) (bytes_of 32 d) (length-bytes_of 32 b))

-- Two peers derive different session keys from each other's published prekeys wherever the
-- agreement of the first's ephemeral with the second's prekey differs from that of the first's
-- prekey with the second's ephemeral, where the agreements commute and fit 32 bytes and the key
-- derivation does not collide on the materials of the two.
pub derive_session_key-apart :
    (c : Ciphers) (agrees : Agrees c) (a b : LocalPrekeys)
    (free : IsCollisionFree c (material c a (published c b)) (material c b (published c a)))
    (sized : (x y : ℕ) → c.diffie_hellman x y < 256 ^ 32)
    → c.diffie_hellman a.ephemeral_secret (c.public_of b.prekey_secret)
      ≢ c.diffie_hellman a.prekey_secret (c.public_of b.ephemeral_secret)
    → derive_session_key c a (published c b) ≢ derive_session_key c b (published c a)
unfolding derive_session_key second
derive_session_key-apart c agrees a b free sized differ = λ same. differ (
    bytes_injective _ _ (sized _ _) (sized _ _)
      (sym (second-is _ _ _) ∙ ap (λ ikm. take 32 (drop 32 ikm)) (free same) ∙ second-is _ _ _)
    ∙ agrees b.ephemeral_secret a.prekey_secret)
