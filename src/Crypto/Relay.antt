-- ===== src/Crypto/Relay.antt =====
-- Messages relayed through a third peer: what is encrypted to a relay key is read with its secret.
use zodia.Prelude.{
  ℕ, ◌≤◌, ◌<◌, ◌^◌, ◌≡◌, refl, false, some, ◌++◌, Bytes, arith, ltb, length, length-append,
  take-append, drop-append, bytes_of, number_of-bytes_of, length-bytes_of,
}
use zodia.Crypto.{Ciphers, ok, relay_key, ecies_encrypt, ecies_decrypt}

-- What the AEAD promises: a text is sealed, at least to its tag of 16 bytes, and read back under
-- the same key and nonce.
abbrev pub IsAead : Ciphers → Type 0
IsAead c =
    (k : ℕ) (nonce text : Bytes)
    → (sealed : Bytes) × ((c.seal k nonce text ≡ some sealed)
        × ((c.unseal k nonce sealed ≡ some text) × (16 ≤ length sealed)))

-- Two parties compute the same shared secret.
abbrev pub Agrees : Ciphers → Type 0
Agrees c = (a b : ℕ) → c.diffie_hellman a (c.public_of b) ≡ c.diffie_hellman b (c.public_of a)

-- A public key has 32 bytes.
abbrev pub HasSizedKeys : Ciphers → Type 0
HasSizedKeys c = (a : ℕ) → c.public_of a < 256 ^ 32

module _ (c : Ciphers) (agrees : Agrees c) (sized : HasSizedKeys c) (sk ek : ℕ)
    (nonce sealed text : Bytes) (len : length nonce ≡ 24) (tag : 16 ≤ length sealed) where
  key : ℕ
  key = relay_key c (c.diffie_hellman ek (c.public_of sk)) (c.public_of ek) (c.public_of sk)

  ek_bytes : Bytes
  ek_bytes = bytes_of 32 (c.public_of ek)

  payload-read :
      c.unseal key nonce sealed ≡ some text
      → ecies_decrypt c sk (ek_bytes ++ (nonce ++ sealed)) ≡ ok text
  unfolding ecies_decrypt key ek_bytes
  payload-read opens =
      rw
        (
          long,
          take-append 32 (bytes_of 32 (c.public_of ek)) (nonce ++ sealed)
              (length-bytes_of 32 (c.public_of ek)),
          drop-append 32 (bytes_of 32 (c.public_of ek)) (nonce ++ sealed)
              (length-bytes_of 32 (c.public_of ek)),
          take-append 24 nonce sealed len,
          drop-append 24 nonce sealed len,
          number_of-bytes_of 32 (c.public_of ek) (sized ek),
          agrees sk ek,
          opens,
        )
        refl
    where
      long : ltb (length (bytes_of 32 (c.public_of ek) ++ (nonce ++ sealed))) 72 ≡ false
      long = ground (
        arith,
        length-append (bytes_of 32 (c.public_of ek)) (nonce ++ sealed),
        length-append nonce sealed,
        length-bytes_of 32 (c.public_of ek),
        len,
        tag,
      )

-- Where the AEAD reads back what it sealed, the key agreement commutes and public keys fit 32
-- bytes: a text is encrypted to the public key of a relay secret, under any ephemeral secret and
-- any nonce of 24 bytes, and the payload is decrypted to it with that secret.
pub ecies_decrypt-ecies_encrypt :
    (c : Ciphers) (aead : IsAead c) (agrees : Agrees c) (sized : HasSizedKeys c) (sk ek : ℕ)
    (nonce text : Bytes)
    → length nonce ≡ 24
    → (payload : Bytes) × ((ecies_encrypt c (c.public_of sk) ek nonce text ≡ some payload)
        × (ecies_decrypt c sk payload ≡ ok text))
unfolding ecies_encrypt key ek_bytes
ecies_decrypt-ecies_encrypt c aead agrees sized sk ek nonce text len =
    let (sealed, (seals, (opens, size))) =
      aead (relay_key c (c.diffie_hellman ek (c.public_of sk)) (c.public_of ek) (c.public_of sk))
        nonce text in
    (
      bytes_of 32 (c.public_of ek) ++ (nonce ++ sealed),
      (
        rw (seals, ecies_encrypt) refl,
        payload-read c agrees sized sk ek nonce sealed text len size opens,
      ),
    )
