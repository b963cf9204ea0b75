-- ===== src/Config/Tests.antt =====
-- The configurations at concrete environments.
use lynk.Base.{
  ◌≡◌, refl, Bytes, codes, Bool, true, false, [], ◌∷◌, ◌++◌, none, some, pos, negsuc, arith,
  bytes_eq, trim_space,
}
use lynk.Config.{Env, clamp_int32}
use lynk.Config.Checks.{Parsers, load_failed, invalid, split_list}
use lynk.Config.Dotenv.{File, missing}
use lynk.Config.Core
use lynk.Config.Gateway
use lynk.Config.Transport.{
  TlsFiles, plaintext, IsMutual, build_transport_credentials, load_transport_credentials,
  load-IsMutual,
}

-- Every number is 7, and floats are truth values.
abbrev parsers : Parsers Bool
parsers = record {
  atoi = λ s. some (pos 7);
  parse_bool = λ s. none;
  parse_duration = λ s. none;
  parse_float = λ s. some false;
  one = true;
  at_least_zero = λ f. f;
  at_most_one = λ f. true;
}

abbrev no_file : Bytes → File
no_file path = missing

bare :
    Core.load parsers no_file (
      (codes "APP_ENV", codes "production")
      ∷ (codes "REDIS_URL", codes " ")
      ∷ (codes "NATS_URL", codes "n")
      ∷ [])
    ≡ load_failed (
        invalid (
          codes
            "config: missing required environment variable DB_WRITE_URL; missing required environment variable REDIS_URL; missing required environment variable JWT_PRIVATE_KEY_PEM; missing required environment variable JWT_PUBLIC_KEY_PEM"))
unfolding Core.load Core.read_config bytes_eq trim_space
bare = refl

clamped : clamp_int32 (negsuc 3000000000) ≡ negsuc 2147483647
unfolding clamp_int32
clamped = refl

origins : split_list (codes "a, b,,c ") ≡ codes "a" ∷ codes "b" ∷ codes "c" ∷ []
unfolding split_list trim_space
origins = refl

abbrev secured : Env
secured =
    (codes "REDIS_URL", codes "r")
    ∷ (codes "INTERNAL_TLS_CERT_FILE", codes "c")
    ∷ (codes "INTERNAL_TLS_KEY_FILE", codes "k")
    ∷ (codes "INTERNAL_TLS_CA_FILE", codes "a")
    ∷ []

abbrev tls_files : TlsFiles
tls_files = record {
  load_keypair = λ c k. some (c ++ k);
  read_file = λ path. some path;
  certs_from_pem = λ text. some text;
}

load-IsMutual_example :
    IsMutual
      (build_transport_credentials tls_files (Gateway.read_config parsers secured).upstreams.tls)
unfolding bytes_eq trim_space Gateway.load Gateway.read_config
load-IsMutual_example =
    load-IsMutual parsers tls_files no_file secured (Gateway.read_config parsers secured) refl
      (λ h. absurd (omega (arith, h)))

-- With only the certificates for clients, the core service listens in plain text.
ca_alone : load_transport_credentials tls_files [] [] (codes "ca.pem") ≡ some plaintext
unfolding load_transport_credentials
ca_alone = refl
