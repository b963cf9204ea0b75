-- ===== src/Config/Core.antt =====
-- The configuration of the core service (services/core/internal/platform/config/service.go).
use lynk.Base.{
  ℕ, ◌*◌, ◌^◌, Bytes, codes, Bool, true, false, ◌&&◌, List, [], bytes_eq, ℤ, pos, if◌then◌else◌,
}
use lynk.Config.{Env, read_env, string_env, clamp_int32}
use lynk.Config.Dotenv.{File, Loaded, load_dotenv}
use lynk.Config.Checks.{
  Parsers, Validation, require, check, validation_err, split_list, to_uint32, LoadResult,
  load_failed, dotenv_failed, unless_invalid,
}

pub record AppConfig : Type 0 where
  pub env : Bytes
  pub name : Bytes
  pub grpc_port : ℤ
  pub metrics_port : ℤ

pub record ServerConfig : Type 0 where
  pub max_recv_message_bytes : ℤ
  pub max_concurrent_streams : ℕ
  pub handler_timeout : ℤ
  pub tls_cert_file : Bytes
  pub tls_key_file : Bytes
  pub tls_client_ca_file : Bytes

pub record DatabaseConfig : Type 0 where
  pub write_url : Bytes
  pub read_urls : List Bytes
  pub max_conns : ℤ
  pub min_conns : ℤ
  pub max_conn_lifetime : ℤ
  pub max_conn_idle_time : ℤ

pub record RedisConfig : Type 0 where
  pub url : Bytes
  pub pool_size : ℤ
  pub max_retries : ℤ

pub record NatsConfig : Type 0 where
  pub url : Bytes
  pub stream_replicas : ℤ

pub record JwtConfig : Type 0 where
  pub private_key_pem : Bytes
  pub public_key_pem : Bytes
  pub issuer : Bytes
  pub access_token_ttl : ℤ
  pub refresh_token_ttl : ℤ

pub record LogConfig : Type 0 where
  pub level : Bytes
  pub json : Bool

pub record TelemetryConfig (F : Type 0) : Type 0 where
  pub enabled : Bool
  pub endpoint : Bytes
  pub trace_sample_ratio : F

pub record Config (F : Type 0) : Type 0 where
  pub app : AppConfig
  pub server : ServerConfig
  pub database : DatabaseConfig
  pub redis : RedisConfig
  pub nats : NatsConfig
  pub jwt : JwtConfig
  pub log : LogConfig
  pub telemetry : TelemetryConfig F

abbrev mins : ℕ → ℤ
mins n = pos (n * (60 * 10 ^ 9))

module _ {F : Type 0} (p : Parsers F) where
  -- `Int32`
  abbrev int32_env : Bytes → ℤ → Env → ℤ
  int32_env key fallback env = clamp_int32 (read_env p.atoi key fallback env)

  -- The configuration as it is read, before the checks.
  unfoldable pub read_config : Env → Config F
  unfolding string_env read_env split_list clamp_int32
  read_config env = record {
    app = record {
      env = string_env (codes "APP_ENV") (codes "development") env;
      name = string_env (codes "APP_NAME") (codes "core") env;
      grpc_port = read_env p.atoi (codes "GRPC_PORT") (pos 50051) env;
      metrics_port = read_env p.atoi (codes "METRICS_PORT") (pos 9091) env;
    };
    server = record {
      max_recv_message_bytes = read_env p.atoi (codes "GRPC_MAX_RECV_BYTES") (pos (2 ^ 22)) env;
      max_concurrent_streams =
          to_uint32 (read_env p.atoi (codes "GRPC_MAX_CONCURRENT_STREAMS") (pos 1000) env);
      handler_timeout =
          read_env p.parse_duration (codes "GRPC_HANDLER_TIMEOUT") (pos (30 * 10 ^ 9)) env;
      tls_cert_file = string_env (codes "GRPC_TLS_CERT_FILE") [] env;
      tls_key_file = string_env (codes "GRPC_TLS_KEY_FILE") [] env;
      tls_client_ca_file = string_env (codes "GRPC_TLS_CLIENT_CA_FILE") [] env;
    };
    database = record {
      write_url = string_env (codes "DB_WRITE_URL") [] env;
      read_urls = split_list (string_env (codes "DB_READ_URLS") [] env);
      max_conns = int32_env (codes "DB_MAX_CONNS") (pos 0) env;
      min_conns = int32_env (codes "DB_MIN_CONNS") (pos 5) env;
      max_conn_lifetime = read_env p.parse_duration (codes "DB_MAX_CONN_LIFETIME") (mins 30) env;
      max_conn_idle_time = read_env p.parse_duration (codes "DB_MAX_CONN_IDLE_TIME") (mins 5) env;
    };
    redis = record {
      url = string_env (codes "REDIS_URL") [] env;
      pool_size = read_env p.atoi (codes "REDIS_POOL_SIZE") (pos 50) env;
      max_retries = read_env p.atoi (codes "REDIS_MAX_RETRIES") (pos 3) env;
    };
    nats = record {
      url = string_env (codes "NATS_URL") [] env;
      stream_replicas = read_env p.atoi (codes "NATS_STREAM_REPLICAS") (pos 1) env;
    };
    jwt = record {
      private_key_pem = string_env (codes "JWT_PRIVATE_KEY_PEM") [] env;
      public_key_pem = string_env (codes "JWT_PUBLIC_KEY_PEM") [] env;
      issuer = string_env (codes "JWT_ISSUER") (codes "lynk") env;
      access_token_ttl = read_env p.parse_duration (codes "JWT_ACCESS_TTL") (mins 15) env;
      refresh_token_ttl =
          read_env p.parse_duration (codes "JWT_REFRESH_TTL") (mins (7 * (24 * 60))) env;
    };
    log = record {
      level = string_env (codes "LOG_LEVEL") (codes "info") env;
      json = read_env p.parse_bool (codes "LOG_JSON") false env;
    };
    telemetry = record {
      enabled = read_env p.parse_bool (codes "OTEL_ENABLED") false env;
      endpoint = string_env (codes "OTEL_ENDPOINT") (codes "localhost:4317") env;
      trace_sample_ratio = read_env p.parse_float (codes "OTEL_TRACE_SAMPLE_RATIO") p.one env;
    };
  }

  abbrev pub is_production : Config F → Bool
  is_production c = bytes_eq c.app.env (codes "production")

  abbrev pub is_development : Config F → Bool
  is_development c = bytes_eq c.app.env (codes "development")

  -- The checks, in the order of the code.
  unfoldable pub problems : Config F → Validation
  unfolding require check
  problems c =
      let first = require (codes "NATS_URL") c.nats.url (
        require (codes "REDIS_URL") c.redis.url
          (require (codes "DB_WRITE_URL") c.database.write_url [])) in
      let second =
        if is_production c
        then require (codes "JWT_PUBLIC_KEY_PEM") c.jwt.public_key_pem
            (require (codes "JWT_PRIVATE_KEY_PEM") c.jwt.private_key_pem first)
        else first in
      check
        (p.at_least_zero c.telemetry.trace_sample_ratio
          && p.at_most_one c.telemetry.trace_sample_ratio)
        (codes "OTEL_TRACE_SAMPLE_RATIO must be between 0.0 and 1.0") second

  unfoldable pub validated : Config F → LoadResult (Config F)
  unfolding problems validation_err
  validated c = unless_invalid c (validation_err (problems c))

  after_dotenv : Loaded → LoadResult (Config F)
  unfolding validated
  after_dotenv (env, true) = load_failed dotenv_failed
  after_dotenv (env, false) = validated (read_config env)

  unfoldable pub load : (Bytes → File) → Env → LoadResult (Config F)
  unfolding after_dotenv load_dotenv
  load files env = after_dotenv (load_dotenv files [] env)
