-- ===== src/Config/Gateway.antt =====
-- The configuration of the gateway (services/gateway/internal/platform/config/service.go).
use lynk.Base.{
  ℕ, ◌+◌, ◌*◌, ◌^◌, Bytes, codes, Bool, true, false, not, ◌&&◌, List, [], ◌∷◌, ltb, bytes_eq, ℤ,
  pos, if◌then◌else◌,
}
use lynk.Config.{Env, read_env, string_env}
use lynk.Config.Dotenv.{File, Loaded, load_dotenv}
use lynk.Config.Checks.{
  Parsers, is_blank, Validation, require, check, validation_err, split_list, LoadResult,
  load_failed, dotenv_failed, unless_invalid,
}

pub record AppConfig : Type 0 where
  pub env : Bytes
  pub name : Bytes
  pub http_port : ℤ
  pub metrics_port : ℤ

pub record ServerConfig : Type 0 where
  pub read_timeout : ℤ
  pub read_header_timeout : ℤ
  pub write_timeout : ℤ
  pub idle_timeout : ℤ
  pub max_header_bytes : ℤ
  pub max_body_bytes : ℤ
  pub handler_timeout : ℤ
  pub tls_cert_file : Bytes
  pub tls_key_file : Bytes

pub record RateLimitConfig : Type 0 where
  pub global_per_second : ℤ
  pub per_ip_per_minute : ℤ

pub record InternalTlsConfig : Type 0 where
  pub cert_file : Bytes
  pub key_file : Bytes
  pub ca_file : Bytes

pub record UpstreamsConfig : Type 0 where
  pub core : Bytes
  pub tls : InternalTlsConfig

pub record JwtConfig : Type 0 where
  pub public_key_pem : Bytes
  pub issuer : Bytes

pub record RedisConfig : Type 0 where
  pub url : Bytes
  pub pool_size : ℤ
  pub max_retries : ℤ

pub record LogConfig : Type 0 where
  pub level : Bytes
  pub json : Bool

pub record TelemetryConfig (F : Type 0) : Type 0 where
  pub enabled : Bool
  pub endpoint : Bytes
  pub trace_sample_ratio : F

pub record Config (F : Type 0) : Type 0 where
  pub app : AppConfig
  pub server : ServerConfig
  pub allowed_origins : List Bytes
  pub rate_limit : RateLimitConfig
  pub upstreams : UpstreamsConfig
  pub jwt : JwtConfig
  pub redis : RedisConfig
  pub log : LogConfig
  pub telemetry : TelemetryConfig F

-- `Enabled`
abbrev pub tls_enabled : InternalTlsConfig → Bool
tls_enabled t = not (is_blank t.cert_file) && not (is_blank t.key_file) && not (is_blank t.ca_file)

-- The loop of `partial`.
abbrev pub count_set : List Bytes → ℕ
count_set [] = 0
count_set (v ∷ vs) = (if is_blank v then 0 else 1) + count_set vs

abbrev pub tls_partial : InternalTlsConfig → Bool
tls_partial t =
    let set = count_set (t.cert_file ∷ t.key_file ∷ t.ca_file ∷ []) in ltb 0 set && ltb set 3

-- Nanoseconds.
abbrev secs : ℕ → ℤ
secs n = pos (n * 10 ^ 9)

module _ {F : Type 0} (p : Parsers F) where
  -- The configuration as it is read, before the checks.
  unfoldable pub read_config : Env → Config F
  unfolding string_env read_env split_list
  read_config env = record {
    app = record {
      env = string_env (codes "APP_ENV") (codes "development") env;
      name = string_env (codes "APP_NAME") (codes "gateway") env;
      http_port = read_env p.atoi (codes "HTTP_PORT") (pos 8080) env;
      metrics_port = read_env p.atoi (codes "METRICS_PORT") (pos 9090) env;
    };
    server = record {
      read_timeout = read_env p.parse_duration (codes "HTTP_READ_TIMEOUT") (secs 10) env;
      read_header_timeout =
          read_env p.parse_duration (codes "HTTP_READ_HEADER_TIMEOUT") (secs 5) env;
      write_timeout = read_env p.parse_duration (codes "HTTP_WRITE_TIMEOUT") (secs 30) env;
      idle_timeout = read_env p.parse_duration (codes "HTTP_IDLE_TIMEOUT") (secs 120) env;
      max_header_bytes = read_env p.atoi (codes "HTTP_MAX_HEADER_BYTES") (pos (2 ^ 20)) env;
      max_body_bytes = read_env p.atoi (codes "HTTP_MAX_BODY_BYTES") (pos (10 * 2 ^ 20)) env;
      handler_timeout = read_env p.parse_duration (codes "HTTP_HANDLER_TIMEOUT") (secs 30) env;
      tls_cert_file = string_env (codes "HTTP_TLS_CERT_FILE") [] env;
      tls_key_file = string_env (codes "HTTP_TLS_KEY_FILE") [] env;
    };
    allowed_origins = split_list (
        string_env (codes "CORS_ALLOWED_ORIGINS")
          (codes "http://localhost:5173,http://localhost:3000") env);
    rate_limit = record {
      global_per_second = read_env p.atoi (codes "RATE_LIMIT_GLOBAL_PER_SECOND") (pos 10000) env;
      per_ip_per_minute = read_env p.atoi (codes "RATE_LIMIT_PER_IP_PER_MINUTE") (pos 600) env;
    };
    upstreams = record {
      core = string_env (codes "UPSTREAM_CORE") (codes "localhost:50051") env;
      tls = record {
        cert_file = string_env (codes "INTERNAL_TLS_CERT_FILE") [] env;
        key_file = string_env (codes "INTERNAL_TLS_KEY_FILE") [] env;
        ca_file = string_env (codes "INTERNAL_TLS_CA_FILE") [] env;
      };
    };
    jwt = record {
      public_key_pem = string_env (codes "JWT_PUBLIC_KEY_PEM") [] env;
      issuer = string_env (codes "JWT_ISSUER") (codes "lynk") env;
    };
    redis = record {
      url = string_env (codes "REDIS_URL") [] env;
      pool_size = read_env p.atoi (codes "REDIS_POOL_SIZE") (pos 50) env;
      max_retries = read_env p.atoi (codes "REDIS_MAX_RETRIES") (pos 3) env;
    };
    log = record {
      level = string_env (codes "LOG_LEVEL") (codes "info") env;
      json = read_env p.parse_bool (codes "LOG_JSON") false env;
    };
    telemetry = record {
      enabled = read_env p.parse_bool (codes "OTEL_ENABLED") false env;
      endpoint = string_env (codes "OTEL_ENDPOINT") (codes "localhost:4317") env;
      trace_sample_ratio = read_env p.parse_float (codes "OTEL_TRACE_SAMPLE_RATIO") p.one env;
    };
  }

  abbrev pub is_production : Config F → Bool
  is_production c = bytes_eq c.app.env (codes "production")

  -- The checks, in the order of the code.
  unfoldable pub problems : Config F → Validation
  unfolding require check
  problems c =
      let first =
        require (codes "UPSTREAM_CORE") c.upstreams.core
          (require (codes "REDIS_URL") c.redis.url []) in
      let second =
        if is_production c
        then require (codes "JWT_PUBLIC_KEY_PEM") c.jwt.public_key_pem first
        else first in
      let third =
        check (not (tls_partial c.upstreams.tls))
          (codes
            "INTERNAL_TLS_CERT_FILE, INTERNAL_TLS_KEY_FILE, INTERNAL_TLS_CA_FILE must be set together or not at all")
          second in
      check
        (p.at_least_zero c.telemetry.trace_sample_ratio
          && p.at_most_one c.telemetry.trace_sample_ratio)
        (codes "OTEL_TRACE_SAMPLE_RATIO must be between 0.0 and 1.0") third

  unfoldable pub validated : Config F → LoadResult (Config F)
  unfolding problems validation_err
  validated c = unless_invalid c (validation_err (problems c))

  unfoldable pub after_dotenv : Loaded → LoadResult (Config F)
  unfolding validated
  after_dotenv (env, true) = load_failed dotenv_failed
  after_dotenv (env, false) = validated (read_config env)

  unfoldable pub load : (Bytes → File) → Env → LoadResult (Config F)
  unfolding after_dotenv load_dotenv
  load files env = after_dotenv (load_dotenv files [] env)
