-- ===== src/Crypto/Consent.antt =====
-- crypto/src/lib.rs: the consent state of one peer relationship.
use zodia.Prelude.{
  ℕ, ◌≤◌, ◌≡◌, ◌∙◌, refl, Bool, true, false, not, Option, none, some, Bytes, arith, ltb, ◌==◌,
  nat_eq, if◌then◌else◌, Bool-cases, inl, inr,
}
use zodia.Crypto.{
  Ciphers, LocalPrekeys, RatchetError, SessionRatchet, Outcome, ok, err, derive_session_key,
  new_session, encrypt, decrypt,
}

pub data ConsentError : Type 0 where
  out_of_order : ℕ → ℕ → ConsentError
  not_mutual : ℕ → ConsentError
  crypto : RatchetError → ConsentError

-- What a call answers; `panicked` where an `expect` fails.
pub data Answer (A : Type 0) : Type 0 where
  done : A → Answer A
  refused : ConsentError → Answer A
  panicked : Answer A

-- `B` is the birth data. The identity never changes and is left out.
pub record ConsentState (B : Type 0) : Type 0 where
  pub level : ℕ
  pub prekeys : Option LocalPrekeys
  pub peer_identity : Option ℕ
  pub peer_birth : Option B
  pub ratchet : Option SessionRatchet

abbrev answered : Outcome Bytes → Answer Bytes
answered (ok text) = done text
answered (err e) = refused (crypto e)

abbrev pub is_some {ℓ} : {A : Type ℓ} → Option A → Bool
is_some none = false
is_some (some a) = true

module _ (c : Ciphers) {B : Type 0} where
  -- The prekeys are freshly generated.
  unfoldable pub fresh_state : LocalPrekeys → ConsentState B
  fresh_state prekeys = record {
    level = 0;
    prekeys = some prekeys;
    peer_identity = none;
    peer_birth = none;
    ratchet = none;
  }

  abbrev established :
      ConsentState B → Option LocalPrekeys → ℕ → ℕ → B → ℕ → Bool → ConsentState B × Answer Unit
  established s none prekey ephemeral birth identity initiator = (s, panicked)
  established s (some local) prekey ephemeral birth identity initiator =
      let session_key =
        derive_session_key c local (record { prekey = prekey; ephemeral = ephemeral }) in
      (
        record {
          level = 1;
          prekeys = none;
          peer_identity = some identity;
          peer_birth = some birth;
          ratchet = some (new_session c session_key initiator);
        },
        done tt,
      )

  unfoldable pub accept_consent :
      ConsentState B → ℕ → ℕ → B → ℕ → Bool → ConsentState B × Answer Unit
  accept_consent s prekey ephemeral birth identity initiator =
      if not (s.level == 0)
      then (s, refused (out_of_order 0 1))
      else established s s.prekeys prekey ephemeral birth identity initiator

  unfoldable pub accept_voice : ConsentState B → ConsentState B × Answer Unit
  accept_voice s =
      if ltb s.level 1 then (s, refused (out_of_order 1 2)) else (record s { level = 2 }, done tt)

  abbrev sent :
      ConsentState B → Option SessionRatchet → Bytes → Bytes → ConsentState B × Answer Bytes
  sent s none nonce plaintext = (s, refused (out_of_order 1 1))
  sent s (some r) nonce plaintext =
      let (chain, out) = encrypt c r.send nonce plaintext in
      (record s { ratchet = some (record r { send = chain }) }, answered out)

  unfoldable pub encrypt_for : ConsentState B → Bytes → Bytes → ConsentState B × Answer Bytes
  encrypt_for s nonce plaintext = sent s s.ratchet nonce plaintext

  abbrev read : ConsentState B → Option SessionRatchet → Bytes → ConsentState B × Answer Bytes
  read s none frame = (s, refused (out_of_order 1 1))
  read s (some r) frame =
      let (chain, out) = decrypt c r.recv frame in
      (record s { ratchet = some (record r { recv = chain }) }, answered out)

  unfoldable pub decrypt_from : ConsentState B → Bytes → ConsentState B × Answer Bytes
  decrypt_from s frame = read s s.ratchet frame

  -- One call of the application.
  pub data Step : ConsentState B → ConsentState B → Type 0 where
    consented :
        (s : ConsentState B) (prekey ephemeral : ℕ) (birth : B) (identity : ℕ) (initiator : Bool)
        → Step s (accept_consent s prekey ephemeral birth identity initiator).0
    voiced : (s : ConsentState B) → Step s (accept_voice s).0
    encrypted :
        (s : ConsentState B) (nonce plaintext : Bytes) → Step s (encrypt_for s nonce plaintext).0
    decrypted : (s : ConsentState B) (frame : Bytes) → Step s (decrypt_from s frame).0

  -- The states that calls lead to.
  pub data Reaches (s : ConsentState B) : ConsentState B → Type 0 where
    start : Reaches s s
    then_call : {t u : ConsentState B} → Reaches s t → Step t u → Reaches s u

  -- The prekeys are there exactly at level 0, and a session exactly above it.
  pub record IsConsistent (s : ConsentState B) : Type 0 where
    pub low : s.level ≤ 2
    pub keyed : is_some s.prekeys ≡ (s.level == 0)
    pub in_session : is_some s.ratchet ≡ not (s.level == 0)

  established-IsConsistent :
      (s : ConsentState B) (o : Option LocalPrekeys) (prekey ephemeral : ℕ) (birth : B)
      (identity : ℕ) (initiator : Bool)
      → IsConsistent s
      → IsConsistent (established s o prekey ephemeral birth identity initiator).0
  established-IsConsistent s none prekey ephemeral birth identity initiator h = h
  established-IsConsistent s (some l) prekey ephemeral birth identity initiator h = record {
    low = omega arith;
    keyed = refl;
    in_session = refl;
  }

  accept_consent-IsConsistent :
      (s : ConsentState B) (prekey ephemeral : ℕ) (birth : B) (identity : ℕ) (initiator : Bool)
      → IsConsistent s
      → IsConsistent (accept_consent s prekey ephemeral birth identity initiator).0
  unfolding accept_consent
  accept_consent-IsConsistent s prekey ephemeral birth identity initiator h =
      elim (Bool-cases (s.level == 0)) [
        | inl e ↦
            rw e (established-IsConsistent s s.prekeys prekey ephemeral birth identity initiator h)
        | inr e ↦ rw e h
      ]

  accept_voice-IsConsistent :
      (s : ConsentState B) → IsConsistent s → IsConsistent (accept_voice s).0
  unfolding accept_voice
  accept_voice-IsConsistent s h = elim (Bool-cases (ltb s.level 1)) [
    | inl e ↦ rw e h
    | inr e ↦ rw e (record {
      low = omega arith;
      keyed = ground (arith, e, h.keyed);
      in_session = ground (arith, e, h.in_session);
    })
  ]

  sent-IsConsistent :
      (s : ConsentState B) (o : Option SessionRatchet) (nonce plaintext : Bytes)
      → s.ratchet ≡ o
      → IsConsistent s
      → IsConsistent (sent s o nonce plaintext).0
  sent-IsConsistent s none nonce plaintext e h = h
  sent-IsConsistent s (some r) nonce plaintext e h = record {
    low = h.low;
    keyed = h.keyed;
    in_session = ground (arith, h.in_session, e);
  }

  read-IsConsistent :
      (s : ConsentState B) (o : Option SessionRatchet) (frame : Bytes)
      → s.ratchet ≡ o
      → IsConsistent s
      → IsConsistent (read s o frame).0
  read-IsConsistent s none frame e h = h
  read-IsConsistent s (some r) frame e h = record {
    low = h.low;
    keyed = h.keyed;
    in_session = ground (arith, h.in_session, e);
  }

  Step-IsConsistent : {s t : ConsentState B} → Step s t → IsConsistent s → IsConsistent t
  unfolding encrypt_for decrypt_from
  Step-IsConsistent (consented s prekey ephemeral birth identity initiator) h =
      accept_consent-IsConsistent s prekey ephemeral birth identity initiator h
  Step-IsConsistent (voiced s) h = accept_voice-IsConsistent s h
  Step-IsConsistent (encrypted s nonce plaintext) h =
      sent-IsConsistent s s.ratchet nonce plaintext refl h
  Step-IsConsistent (decrypted s frame) h = read-IsConsistent s s.ratchet frame refl h

  Reaches-IsConsistent : {s t : ConsentState B} → Reaches s t → IsConsistent s → IsConsistent t
  Reaches-IsConsistent start h = h
  Reaches-IsConsistent (then_call r step) h = Step-IsConsistent step (Reaches-IsConsistent r h)

  fresh_state-IsConsistent : (prekeys : LocalPrekeys) → IsConsistent (fresh_state prekeys)
  unfolding fresh_state
  fresh_state-IsConsistent prekeys = record { low = omega arith; keyed = refl; in_session = refl }

  -- Whatever calls led from a fresh state: the level is at most 2, the prekeys are there exactly at
  -- level 0, and there is a session exactly above it.
  pub Reaches-fresh_state :
      (prekeys : LocalPrekeys) (s : ConsentState B)
      → Reaches (fresh_state prekeys) s
      → IsConsistent s
  Reaches-fresh_state prekeys s r = Reaches-IsConsistent r (fresh_state-IsConsistent prekeys)

  unpanicked :
      (s : ConsentState B) (o : Option LocalPrekeys) (prekey ephemeral : ℕ) (birth : B)
      (identity : ℕ) (initiator : Bool)
      → is_some o ≡ true
      → (established s o prekey ephemeral birth identity initiator).1 ≡ done tt
  unpanicked s none prekey ephemeral birth identity initiator h = cc
  unpanicked s (some l) prekey ephemeral birth identity initiator h = refl

  -- In a state that calls led to from a fresh one, accepting consent answers: it is done where the
  -- level is 0, and refused as out of order above it. The missing prekeys never make it panic.
  pub accept_consent-answers :
      (prekeys : LocalPrekeys) (s : ConsentState B) (prekey ephemeral : ℕ) (birth : B)
      (identity : ℕ) (initiator : Bool)
      → Reaches (fresh_state prekeys) s
      → (accept_consent s prekey ephemeral birth identity initiator).1
        ≡ (if s.level == 0 then done tt else refused (out_of_order 0 1))
  unfolding accept_consent
  accept_consent-answers prekeys s prekey ephemeral birth identity initiator r =
      elim (Bool-cases (s.level == 0)) [
        | inl e ↦ rw e (
            unpanicked s s.prekeys prekey ephemeral birth identity initiator
              ((Reaches-fresh_state prekeys s r).keyed ∙ e))
        | inr e ↦ rw e refl
      ]
