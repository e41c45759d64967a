-- ===== src/Tests/Crypto.antt =====
-- Tests of handshakes, relayed messages and consent, over toy ciphers.
use zodia.Prelude.{
  ℕ, bytes_of, ◌+◌, ◌*◌, ◌%◌, ◌^◌, ◌≡◌, ◌≢◌, refl, true, some, [], ◌∷◌, ◌++◌, Bytes, codes, drop,
  arith, if◌then◌else◌, ◌==◌, nat_eq,
}
use zodia.Crypto.{Ciphers, ok, LocalPrekeys, derive_session_key, ecies_encrypt, ecies_decrypt}
use zodia.Crypto.Relay.{IsAead, Agrees, ecies_decrypt-ecies_encrypt}
use zodia.Crypto.Sessions.{published, material, IsCollisionFree, derive_session_key-apart}
use zodia.Crypto.Consent.{
  ConsentState, fresh_state, accept_consent, accept_voice, consented, voiced, Reaches, start,
  then_call, IsConsistent, Reaches-fresh_state, accept_consent-answers, done, refused, out_of_order,
}

-- A byte string as one number.
unfoldable number : Bytes → ℕ
number [] = 0
number (x ∷ xs) = (x + 1) + 257 * number xs

abbrev zeros : Bytes
zeros = 0 ∷ 0 ∷ 0 ∷ 0 ∷ 0 ∷ 0 ∷ 0 ∷ 0 ∷ 0 ∷ 0 ∷ 0 ∷ 0 ∷ 0 ∷ 0 ∷ 0 ∷ 0 ∷ []

abbrev nonce : Bytes
nonce = 1 ∷ 2 ∷ 3 ∷ 4 ∷ 5 ∷ 6 ∷ 7 ∷ 8 ∷ zeros

-- Keys that depend on the material alone.
abbrev by_material : Ciphers
by_material = record {
  derive_key = λ context material. number material % 1000003;
  public_of = λ a. a % 256 ^ 32;
  diffie_hellman = λ a b. (a + b) % 256 ^ 32;
  seal = λ k n text. some (zeros ++ text);
  unseal = λ k n sealed. some (drop 16 sealed);
}

by_material-IsAead : IsAead by_material
by_material-IsAead = λ k n text. (zeros ++ text, (refl, (refl, omega arith)))

by_material-Agrees : Agrees by_material
by_material-Agrees = λ a b. omega arith

abbrev alice : LocalPrekeys
alice = record { prekey_secret = 3; ephemeral_secret = 1 }

abbrev bob : LocalPrekeys
bob = record { prekey_secret = 2; ephemeral_secret = 9 }

-- The two derived keys are different numbers.
apart :
    IsCollisionFree by_material
      (material by_material alice (published by_material bob))
      (material by_material bob (published by_material alice))
unfolding number bytes_of
apart = λ e. absurd (omega (arith, e))

derive_session_key-apart_example :
    derive_session_key by_material alice (published by_material bob)
    ≢ derive_session_key by_material bob (published by_material alice)
derive_session_key-apart_example =
    derive_session_key-apart by_material by_material-Agrees alice bob apart (λ x y. omega arith)
      (λ e. absurd (omega (arith, e)))

ecies_decrypt-ecies_encrypt_example :
    (payload : Bytes) × ((ecies_encrypt by_material (by_material.public_of 7) 11 nonce (codes "hi")
        ≡ some payload)
      × (ecies_decrypt by_material 7 payload ≡ ok (codes "hi")))
ecies_decrypt-ecies_encrypt_example =
    ecies_decrypt-ecies_encrypt by_material by_material-IsAead by_material-Agrees (λ a. omega arith)
      7 11 nonce (codes "hi") refl

abbrev fresh : ConsentState ℕ
fresh = fresh_state by_material alice

abbrev talking : ConsentState ℕ
talking = (accept_voice by_material (accept_consent by_material fresh 2 9 0 4 true).0).0

talking_reached : Reaches by_material fresh talking
talking_reached =
    then_call (then_call start (consented fresh 2 9 0 4 true))
      (voiced (accept_consent by_material fresh 2 9 0 4 true).0)

Reaches-fresh_state_example : IsConsistent by_material talking
Reaches-fresh_state_example = Reaches-fresh_state by_material alice talking talking_reached

accept_consent-answers_example :
    (accept_consent by_material talking 2 9 0 4 true).1
    ≡ (if talking.level == 0 then done tt else refused (out_of_order 0 1))
accept_consent-answers_example =
    accept_consent-answers by_material alice talking 2 9 0 4 true talking_reached
