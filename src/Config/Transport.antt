-- ===== src/Config/Transport.antt =====
-- The transport between the gateway and the core service (buildTransportCredentials of
-- services/gateway/internal/edge/proxy.go, loadTransportCredentials of
-- services/core/internal/platform/grpcserver/tls.go). Key pairs and certificates are parsed by
-- crypto/tls and crypto/x509.
use lynk.Base.{
  ◌≡◌, ◌≢◌, refl, subst, Bytes, Bool, true, false, not, ◌&&◌, ◌||◌, [], ◌∷◌, ◌++◌, Option, none,
  some, arith, if◌then◌else◌,
}
use lynk.Config.{Env}
use lynk.Config.Dotenv.{File, load_dotenv, Loaded}
use lynk.Config.Checks.{
  Parsers, is_blank, Validation, check, validation_err, loaded, unless_invalid,
}
use lynk.Config.Gateway.{
  InternalTlsConfig, Config, tls_enabled, tls_partial, count_set, problems, validated, read_config,
  after_dotenv, load,
}

-- The files of a TLS set-up: a key pair from two paths, the bytes of a path, the certificates in a text.
pub record TlsFiles : Type 0 where
  pub load_keypair : Bytes → Bytes → Option Bytes
  pub read_file : Bytes → Option Bytes
  pub certs_from_pem : Bytes → Option Bytes

-- How one end secures a connection: not at all, with its own key pair, or with that and the
-- certificates by which it checks the other end.
pub data Credentials : Type 0 where
  plaintext : Credentials
  own_keypair : Bytes → Credentials
  mutual_tls : Bytes → Bytes → Credentials

abbrev with_pool : Bytes → Option Bytes → Option Credentials
with_pool pair none = none
with_pool pair (some pool) = some (mutual_tls pair pool)

module _ (f : TlsFiles) where
  abbrev with_ca : Bytes → Option Bytes → Option Credentials
  with_ca pair none = none
  with_ca pair (some text) = with_pool pair (f.certs_from_pem text)

  abbrev with_keypair : Bytes → Option Bytes → Option Credentials
  with_keypair ca_file none = none
  with_keypair ca_file (some pair) = with_ca pair (f.read_file ca_file)

  -- The gateway's end; `none` is an error.
  unfoldable pub build_transport_credentials : InternalTlsConfig → Option Credentials
  build_transport_credentials t =
      if not (tls_enabled t)
      then some plaintext
      else with_keypair t.ca_file (f.load_keypair t.cert_file t.key_file)

  abbrev with_server_keypair : Bytes → Option Bytes → Option Credentials
  with_server_keypair client_ca_file none = none
  with_server_keypair [] (some pair) = some (own_keypair pair)
  with_server_keypair (c ∷ path) (some pair) = with_ca pair (f.read_file (c ∷ path))

  -- The core service's end.
  unfoldable pub load_transport_credentials :
      (cert_file key_file client_ca_file : Bytes) → Option Credentials
  load_transport_credentials cert_file key_file client_ca_file =
      if is_blank cert_file && is_blank key_file
      then some plaintext
      else if is_blank cert_file || is_blank key_file
      then none
      else with_server_keypair client_ca_file (f.load_keypair cert_file key_file)

-- Mutual TLS, or no connection at all.
abbrev pub IsMutual : Option Credentials → Type 0
IsMutual none = Unit {0}
IsMutual (some plaintext) = ⊥
IsMutual (some (own_keypair pair)) = ⊥
IsMutual (some (mutual_tls pair pool)) = Unit {0}

IsMutual-with_keypair :
    (f : TlsFiles) (ca : Bytes) (pair : Option Bytes) → IsMutual (with_keypair f ca pair)
IsMutual-with_keypair f ca none = tt
IsMutual-with_keypair f ca (some pair) = IsMutual-with_ca (f.read_file ca)
  where
    IsMutual-with_pool : (pool : Option Bytes) → IsMutual (with_pool pair pool)
    IsMutual-with_pool none = tt
    IsMutual-with_pool (some pool) = tt

    IsMutual-with_ca : (text : Option Bytes) → IsMutual (with_ca f pair text)
    IsMutual-with_ca none = tt
    IsMutual-with_ca (some text) = IsMutual-with_pool (f.certs_from_pem text)

enabled_of_some :
    (t : InternalTlsConfig)
    → tls_partial t ≡ false
    → count_set (t.cert_file ∷ t.key_file ∷ t.ca_file ∷ []) ≢ 0
    → tls_enabled t ≡ true
enabled_of_some t whole some_set = ground (arith, whole, some_set)

-- A later check never takes a problem back.
append_ne_nil : (ps : Validation) (q : Bytes) → ps ++ q ∷ [] ≢ []
append_ne_nil [] q h = cc
append_ne_nil (p ∷ ps) q h = cc

check_nil :
    (b : Bool) (text : Bytes) (ps : Validation) → check b text ps ≡ [] → (b ≡ true) × (ps ≡ [])
unfolding check
check_nil true text ps h = (refl, h)
check_nil false text ps h = absurd (append_ne_nil ps text h)

valid_of_loaded :
    {C : Type 0} (c d : C) (ps : Validation)
    → unless_invalid c (validation_err ps) ≡ loaded d
    → (ps ≡ []) × (c ≡ d)
unfolding validation_err
valid_of_loaded c d [] h = (refl, cc)
valid_of_loaded c d (x ∷ ps) h = absurd (cc)

false_of_not : (b : Bool) → not b ≡ true → b ≡ false
false_of_not true h = cc
false_of_not false h = refl

module _ {F : Type 0} (p : Parsers F) where
  problems-whole : (c : Config F) → problems p c ≡ [] → tls_partial c.upstreams.tls ≡ false
  unfolding problems
  problems-whole c h =
      false_of_not (tls_partial c.upstreams.tls) (check_nil _ _ _ (check_nil _ _ _ h).1).0

  validated-whole :
      (c d : Config F) → validated p c ≡ loaded d → tls_partial d.upstreams.tls ≡ false
  unfolding validated
  validated-whole c d h =
      let (none_found, same) = valid_of_loaded c d (problems p c) h in
      subst (λ e. tls_partial e.upstreams.tls ≡ false) same (problems-whole c none_found)

  after_dotenv-whole :
      (l : Loaded) (d : Config F)
      → after_dotenv p l ≡ loaded d
      → tls_partial d.upstreams.tls ≡ false
  unfolding after_dotenv
  after_dotenv-whole (env, true) d h = absurd (cc)
  after_dotenv-whole (env, false) d h = validated-whole (read_config p env) d h

  -- The gateway never downgrades: when its configuration has loaded and any of the three settings of
  -- the internal TLS is set, then a connection to a backend is by mutual TLS, or there is none.
  pub load-IsMutual :
      (f : TlsFiles) (files : Bytes → File) (env : Env) (cfg : Config F)
      → load p files env ≡ loaded cfg
      → count_set (
          cfg.upstreams.tls.cert_file ∷ cfg.upstreams.tls.key_file ∷ cfg.upstreams.tls.ca_file ∷ [])
        ≢ 0
      → IsMutual (build_transport_credentials f cfg.upstreams.tls)
  unfolding load build_transport_credentials
  load-IsMutual f files env cfg h some_set =
      rw
        (enabled_of_some cfg.upstreams.tls (after_dotenv-whole (load_dotenv files [] env) cfg h)
          some_set)
        (IsMutual-with_keypair f cfg.upstreams.tls.ca_file _)
