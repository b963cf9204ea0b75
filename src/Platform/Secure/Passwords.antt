-- ===== src/Platform/Secure/Passwords.antt =====
-- What a stored password hash is read back as (password.go).
use lynk.Base.{
  ℕ, ◌≡◌, refl, ap, ◌∙◌, Bytes, codes, Bool, true, false, [], ◌∷◌, ◌++◌, some, ◌==◌, bytes_eq,
  bytes_eq_refl, bytes_eq_iff, sym, has_prefix, length, pos, format_int, All,
}
use lynk.Platform.Secure.{
  split_dollars, Crypto, argon_memory_kib, argon_passes, argon_lanes, argon_key_len, hash_password,
  verify_argon2id, verify_password,
}

abbrev pub NoDollar : Bytes → Type 0
NoDollar s = All (λ c. (c == b'$') ≡ false) s

split_dollars-append :
    (s t : Bytes) → NoDollar s → split_dollars (s ++ b'$' ∷ t) ≡ s ∷ split_dollars t
unfolding split_dollars
split_dollars-append [] t h = refl
split_dollars-append (c ∷ s) t h = rw (split_dollars-append s t h.1, h.0) refl

split_dollars_last : (s : Bytes) → NoDollar s → split_dollars s ≡ s ∷ []
unfolding split_dollars
split_dollars_last [] h = refl
split_dollars_last (c ∷ s) h = rw (split_dollars_last s h.1, h.0) refl

from_some : {a b : Bool} → some a ≡ some b → a ≡ b
from_some e = cc

-- What is relied on: the unpadded base64 alphabet has no `$`, decoding undoes encoding, a derived key
-- has the length asked for, and `Sscanf` reads back what `Sprintf` printed.
pub record IsCrypto (k : Crypto) : Type 0 where
  pub plain : (b : Bytes) → NoDollar (k.encode b)
  pub decoded : (b : Bytes) → k.decode (k.encode b) ≡ some b
  pub key_length :
      (password salt : Bytes) (passes memory lanes len : ℕ)
      → length (k.id_key password salt passes memory lanes len) ≡ len
  pub version : k.scan_version (codes "v=19") ≡ some (pos 19)
  pub parameters : k.scan_parameters (codes "m=65536,t=3,p=2") ≡ some (65536, 3, 2)

abbrev pub derived : Crypto → Bytes → Bytes → Bytes
derived k salt password =
    k.id_key password salt argon_passes argon_memory_kib argon_lanes argon_key_len

module _ (k : Crypto) (h : IsCrypto k) (salt password : Bytes) where
  abbrev head_of_hash : Bytes
  head_of_hash = codes "$argon2id$v=19$m=65536,t=3,p=2$"

  hash_password_text :
      hash_password k salt password
      ≡ head_of_hash ++ (k.encode salt ++ b'$' ∷ k.encode (derived k salt password))
  unfolding hash_password format_int
  hash_password_text = refl

  parts :
      split_dollars (hash_password k salt password)
      ≡ []
        ∷ codes "argon2id"
        ∷ codes "v=19"
        ∷ codes "m=65536,t=3,p=2"
        ∷ k.encode salt
        ∷ k.encode (derived k salt password)
        ∷ []
  unfolding split_dollars
  parts =
      rw
        (
          hash_password_text,
          split_dollars-append (k.encode salt) (k.encode (derived k salt password)) (h.plain salt),
          split_dollars_last (k.encode (derived k salt password))
              (h.plain (derived k salt password)),
        )
        refl

  verify_argon2id-hash_password :
      (other : Bytes)
      → verify_argon2id k (hash_password k salt password) other
        ≡ some (bytes_eq (derived k salt other) (derived k salt password))
  unfolding verify_argon2id
  verify_argon2id-hash_password other =
      rw
        (
          parts,
          h.version,
          h.parameters,
          h.decoded salt,
          h.decoded (derived k salt password),
          h.key_length password salt 3 65536 2 32,
        )
        refl

  verify_password-argon :
      (other : Bytes)
      → verify_password k (hash_password k salt password) other
        ≡ verify_argon2id k (hash_password k salt password) other
  unfolding verify_password has_prefix hash_password format_int
  verify_password-argon other = refl

  -- A stored hash verifies without an error, whatever password is tried: the result is whether the key
  -- that is derived from that password and the stored salt is the stored key. So the password that was
  -- hashed is accepted, and another one only if the two have the same key.
  pub verify_password-hash_password :
      (other : Bytes)
      → (verify_password k (hash_password k salt password) other
          ≡ some (bytes_eq (derived k salt other) (derived k salt password)))
        × (verify_password k (hash_password k salt password) password ≡ some true)
        × (verify_password k (hash_password k salt password) other ≡ some true
            → derived k salt other ≡ derived k salt password)
  verify_password-hash_password other =
      let verified = verify_password-argon other ∙ verify_argon2id-hash_password other in
      let own : verify_password k (hash_password k salt password) password ≡ some true =
        verify_password-argon password
        ∙ verify_argon2id-hash_password password
        ∙ ap some (bytes_eq_refl (derived k salt password)) in
      (verified, own, λ accepted. (bytes_eq_iff _ _).0 (from_some (sym verified ∙ accepted)))
