-- ===== src/Edge/Samples.antt =====
-- A request and a gateway for the examples.
use lynk.Base.{ℕ, ◌^◌, ◌*◌, Bytes, codes, true, false, [], ◌∷◌, Option, none, some}
use lynk.Effects.{World}
use lynk.Effects.Redis.{Cell}
use lynk.Edge.Http.{Request, Response, Gate}
use lynk.Edge.Authentication.{Claims, Verify}
use lynk.Edge.Chain.{Config, Library}

abbrev pub request : Request
request = record {
  method = codes "POST";
  path = codes "/identity.v1.IdentityService/Login";
  host = codes "h";
  uri = codes "/u";
  remote_addr = codes "1.2.3.4:5";
  tls = true;
  headers = [];
  cookies = [];
  request_id = [];
  nonce = [];
  principal = none;
  body_limit = none;
}

abbrev pub blank : Response
blank = record { status = none; headers = []; cookies = []; body = [] }

abbrev pub no_cell : Bytes → Option Cell
no_cell k = none

-- A day after the epoch.
abbrev pub noon : ℕ
noon = 86400 * 10 ^ 9

abbrev pub gateway : World Gate
gateway = record {
  db = record { global_count = 7; global_window = 5; filter = []; response = blank };
  in_tx = false;
  redis = no_cell;
  now = noon;
  draws = 0;
  faults = [];
  published = [];
  mails = [];
}

-- The address up to its first colon.
abbrev pub no_port : Bytes → Option Bytes
no_port a = none

abbrev pub claims : Claims
claims = record {
  id = codes "9f";
  subject = codes "u1";
  role = codes "user";
  token_type = codes "user";
}

-- Every token is that of the same user.
abbrev pub verify_sample : Verify
verify_sample token = some claims

abbrev pub config : Config
config = record {
  is_production = true;
  allowed_origins = [];
  max_body_bytes = 1000;
  global_per_second = 10;
  per_ip_per_minute = 10;
}

abbrev pub library : Library
library = record { uuid = λ now n. n ∷ []; hex_token = λ n. n ∷ []; split_host = no_port }
