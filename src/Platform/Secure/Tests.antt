-- ===== src/Platform/Secure/Tests.antt =====
-- Runs of the generators, and libraries that are small enough to compute with.
use lynk.Base.{
  ap, ℕ, zero, suc, ◌+◌, ◌-◌, ◌≡◌, refl, arith, Bytes, codes, true, [], ◌∷◌, some, none, length,
  pos, ap₂, bytes_eq, if◌then◌else◌,
}
use lynk.Platform.Secure.{Crypto, replicate, uuid_v7, numeric_code, hash_password, verify_password}
use lynk.Platform.Secure.Uuid.{string_lt, uuid_v7-lt}
use lynk.Platform.Secure.Passwords.{NoDollar, IsCrypto, derived, verify_password-hash_password}

abbrev shifted : Bytes → Bytes
shifted [] = []
shifted (c ∷ s) = (c + 37) ∷ shifted s

abbrev unshifted : Bytes → Bytes
unshifted [] = []
unshifted (c ∷ s) = (c - 37) ∷ unshifted s

abbrev toy : Crypto
toy = record {
  id_key = λ password salt passes memory lanes len. replicate len (length password);
  encode = shifted;
  decode = λ s. some (unshifted s);
  scan_version = λ s. if bytes_eq s (codes "v=19") then some (pos 19) else none;
  scan_parameters = λ s. if bytes_eq s (codes "m=65536,t=3,p=2") then some (65536, 3, 2) else none;
  bcrypt_matches = λ stored password. none;
}

shifted-NoDollar : (b : Bytes) → NoDollar (shifted b)
shifted-NoDollar [] = tt
shifted-NoDollar (c ∷ b) = (ground arith, shifted-NoDollar b)

unshifted-shifted : (b : Bytes) → unshifted (shifted b) ≡ b
unshifted-shifted [] = refl
unshifted-shifted (c ∷ b) = ap₂ ◌∷◌ (omega arith) (unshifted-shifted b)

length-repeated : (n c : ℕ) → length (replicate n c) ≡ n
length-repeated zero c = refl
length-repeated (suc n) c = omega (arith, length-repeated n c)

toy-IsCrypto : IsCrypto toy
unfolding bytes_eq
toy-IsCrypto = record {
  plain = shifted-NoDollar;
  decoded = λ b. ap some (unshifted-shifted b);
  key_length = λ password salt passes memory lanes len. length-repeated len (length password);
  version = refl;
  parameters = refl;
}

verify_password-hash_password_example :
    (verify_password toy (hash_password toy (codes "salt") (codes "secret")) (codes "other")
      ≡ some (
          bytes_eq
            (derived toy (codes "salt") (codes "other"))
            (derived toy (codes "salt") (codes "secret"))))
    × (verify_password toy (hash_password toy (codes "salt") (codes "secret")) (codes "secret")
        ≡ some true)
    × (verify_password toy (hash_password toy (codes "salt") (codes "secret")) (codes "other")
          ≡ some true
        → derived toy (codes "salt") (codes "other") ≡ derived toy (codes "salt") (codes "secret"))
verify_password-hash_password_example =
    verify_password-hash_password toy toy-IsCrypto (codes "salt") (codes "secret") (codes "other")

uuid_v7_runs : uuid_v7 1_700_000_000_000 (λ i. 255) ≡ codes "018bcfe5-6800-7fff-bfff-ffffffffffff"
unfolding uuid_v7
uuid_v7_runs = refl

uuid_v7-lt_example :
    string_lt (uuid_v7 1_700_000_000_000 (λ i. 255)) (uuid_v7 1_700_000_000_001 (λ i. 0)) ≡ true
uuid_v7-lt_example =
    uuid_v7-lt 1_700_000_000_000 1_700_000_000_001 (λ i. 255) (λ i. 0) (omega arith) (omega arith)

numeric_code_runs : numeric_code 6 4711 ≡ some (codes "004711")
unfolding numeric_code
numeric_code_runs = refl
