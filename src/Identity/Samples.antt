-- ===== src/Identity/Samples.antt =====
-- A small instance of what modules/identity takes from outside, and a database, for the examples.
use lynk.Base.{
  ℕ, ◌+◌, Bytes, codes, false, [], ◌∷◌, ◌++◌, Option, none, some, bytes_eq, trim_space, refl,
}
use lynk.Effects.{World}
use lynk.Effects.Redis.{Cell}
use lynk.Identity.Domain.{active, RefreshToken, new_user_id}
use lynk.Identity.Outside.{Outside, new_email}
use lynk.Identity.Database.{UserRow, Db}
use lynk.Identity.Repositories.Reads.{IsSound}
use lynk.Identity.Sessions.{Lifetimes}

abbrev pub id_of : ℕ → Bytes
id_of n = codes "00000000-0000-7000-8000-00000000000" ++ (b'0' + n) ∷ []

-- Hashes and tokens that are plain texts.
abbrev pub sample : Outside
sample = record {
  hash_token = λ s. s;
  hash_password = λ n p. b'#' ∷ p;
  verify_password = λ h p. some (bytes_eq h (b'#' ∷ p));
  parse_address = λ s. some s;
  to_lower = λ s. s;
  scan_uuid = λ s. some s;
  uuid = λ now n. id_of n;
  hex_token = λ n. b't' ∷ (b'0' + n) ∷ [];
  token = λ n. b't' ∷ (b'0' + n) ∷ [];
  code = λ n. b'c' ∷ (b'0' + n) ∷ [];
  sign = λ user role jti expiry. some (user ++ jti);
}

abbrev pub lifetimes : Lifetimes
lifetimes = record { access_ttl = 900; refresh_ttl = 86400 }

abbrev pub ann : UserRow
ann = record {
  id = id_of 8;
  email = codes "ann@x";
  password_hash = codes "#pw";
  full_name = codes "Ann";
  role = codes "user";
  status = active;
  version = 1;
  created_at = 0;
  updated_at = 0;
  email_verified_at = none;
}

pub ann-IsSound : IsSound sample ann
unfolding new_user_id new_email bytes_eq trim_space
ann-IsSound = record { id_shape = refl; id_scans = refl; address = refl }

abbrev pub session : RefreshToken
session = record {
  id = id_of 9;
  user_id = id_of 8;
  token_hash = codes "old";
  expires_at = 5000;
  revoked_at = none;
  created_at = 0;
}

abbrev pub db : Db
db = record { users = ann ∷ []; sessions = session ∷ []; otps = []; api_keys = []; outbox = [] }

abbrev pub empty_store : Bytes → Option Cell
empty_store k = none

abbrev pub world : World Db
world = record {
  db = db;
  in_tx = false;
  redis = empty_store;
  now = 100;
  draws = 0;
  faults = [];
  published = [];
  mails = [];
}
