-- ===== src/Crypto.antt =====
-- crypto/src: the key agreement, the ratchet and the consent state of a peer relationship, and the
-- encryption of relayed messages. Keys are arrays of 32 bytes, nonces and frames byte strings;
-- randomness is passed in.
pub mod Sessions
pub mod Relay
pub mod Consent
use zodia.Prelude.{
  ℕ, suc, ◌+◌, ◌%◌, ◌^◌, Bool, true, false, Option, none, some, List, [], ◌∷◌, ◌++◌, Bytes, codes,
  ltb, if◌then◌else◌, length, take, drop, bytes_of, number_of,
}

-- What the code takes from blake3, x25519-dalek and chacha20poly1305.
pub record Ciphers : Type 0 where
  -- `derive_key` of a context and key material, as a number of which the low 32 bytes are taken
  pub derive_key : Bytes → Bytes → ℕ
  pub public_of : ℕ → ℕ
  -- of a secret and a public key
  pub diffie_hellman : ℕ → ℕ → ℕ
  -- of a key, a nonce and a text
  pub seal : ℕ → Bytes → Bytes → Option Bytes
  pub unseal : ℕ → Bytes → Bytes → Option Bytes

-- The array of 32 bytes that `blake3::derive_key` fills.
abbrev pub derived_key : Ciphers → Bytes → Bytes → ℕ
derived_key c context material = c.derive_key context material % 256 ^ 32

pub data RatchetError : Type 0 where
  encrypt_failed decrypt_failed too_short : RatchetError

pub data Outcome {ℓ} (A : Type ℓ) : Type ℓ where
  ok : A → Outcome A
  err : RatchetError → Outcome A

pub record RatchetChain : Type 0 where
  pub chain_key : ℕ
  pub counter : ℕ

pub record SessionRatchet : Type 0 where
  pub send : RatchetChain
  pub recv : RatchetChain

-- The secrets; the public keys are derived from them.
pub record LocalPrekeys : Type 0 where
  pub prekey_secret : ℕ
  pub ephemeral_secret : ℕ

pub record PeerPrekeys : Type 0 where
  pub prekey : ℕ
  pub ephemeral : ℕ

abbrev pub opened : Option Bytes → Outcome Bytes
opened none = err decrypt_failed
opened (some text) = ok text

abbrev pub framed : Bytes → Option Bytes → Outcome Bytes
framed nonce none = err encrypt_failed
framed nonce (some ciphertext) = ok (nonce ++ ciphertext)

module _ (c : Ciphers) where
  unfoldable pub new_chain : ℕ → Bytes → RatchetChain
  new_chain session_key context = record {
    chain_key = derived_key c context (bytes_of 32 session_key);
    counter = 0;
  }

  -- The chain after `advance`, and the message key. The counter is a `u64`.
  unfoldable pub advance : RatchetChain → RatchetChain × ℕ
  advance chain = (
    record {
      chain_key = derived_key c (codes "zodia ratchet chain advance") (bytes_of 32 chain.chain_key);
      counter = (chain.counter + 1) % 2 ^ 64;
    },
    derived_key c (codes "zodia ratchet message key")
        (bytes_of 32 chain.chain_key ++ bytes_of 8 chain.counter),
  )

  unfoldable pub encrypt : RatchetChain → Bytes → Bytes → RatchetChain × Outcome Bytes
  unfolding advance
  encrypt chain nonce plaintext =
      let (chain', message_key) = advance chain in
      (chain', framed nonce (c.seal message_key nonce plaintext))

  -- The chain advances before the ciphertext is authenticated.
  unfoldable pub decrypt : RatchetChain → Bytes → RatchetChain × Outcome Bytes
  unfolding advance
  decrypt chain frame =
      if ltb (length frame) 24
      then (chain, err too_short)
      else (let (chain', message_key) = advance chain in
          (chain', opened (c.unseal message_key (take 24 frame) (drop 24 frame))))

  abbrev pub send_context : Bool → Bytes
  send_context true = codes "zodia ratchet initiator send chain"
  send_context false = codes "zodia ratchet responder send chain"

  abbrev pub recv_context : Bool → Bytes
  recv_context true = codes "zodia ratchet initiator recv chain"
  recv_context false = codes "zodia ratchet responder recv chain"

  unfoldable pub new_session : ℕ → Bool → SessionRatchet
  unfolding new_chain
  new_session session_key initiator = record {
    send = new_chain session_key (send_context initiator);
    recv = new_chain session_key (recv_context initiator);
  }

  unfoldable pub derive_session_key : LocalPrekeys → PeerPrekeys → ℕ
  derive_session_key local peer =
      let dh1 = c.diffie_hellman local.ephemeral_secret peer.ephemeral in
      let dh2 = c.diffie_hellman local.ephemeral_secret peer.prekey in
      let dh3 = c.diffie_hellman local.prekey_secret peer.ephemeral in
      derived_key c (codes "zodia.net 2024 tier-1 session key v1")
        (bytes_of 32 dh1 ++ (bytes_of 32 dh2 ++ bytes_of 32 dh3))

  unfoldable pub relay_key : ℕ → ℕ → ℕ → ℕ
  relay_key shared ek_pub dest_pk =
      derived_key c (codes "zodia ecies v1")
        (bytes_of 32 shared ++ (bytes_of 32 ek_pub ++ bytes_of 32 dest_pk))

  -- `none` where the `expect` fails.
  unfoldable pub ecies_encrypt : ℕ → ℕ → Bytes → Bytes → Option Bytes
  unfolding relay_key
  ecies_encrypt dest_relay_pk ek nonce plaintext =
      let ek_pub = c.public_of ek in
      let key = relay_key (c.diffie_hellman ek dest_relay_pk) ek_pub dest_relay_pk in
      elim (c.seal key nonce plaintext) [
        | none ↦ none
        | some ciphertext ↦ some (bytes_of 32 ek_pub ++ (nonce ++ ciphertext))
      ]

  unfoldable pub ecies_decrypt : ℕ → Bytes → Outcome Bytes
  unfolding relay_key
  ecies_decrypt our_relay_sk payload =
      if ltb (length payload) 72
      then err decrypt_failed
      else (let ek_pub = number_of (take 32 payload) in
          let key =
            relay_key (c.diffie_hellman our_relay_sk ek_pub) ek_pub (c.public_of our_relay_sk) in
          opened (c.unseal key (take 24 (drop 32 payload)) (drop 24 (drop 32 payload))))
