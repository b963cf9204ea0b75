-- ===== src/Edge/Http.antt =====
-- Requests, responses and middlewares of the gateway (services/gateway/internal/edge, middleware.go)
-- as net/http has them. A header is a list of pairs of a canonical name and one value; the order of
-- different names does not matter. What `http.Error` sets beside status and text is left out.
pub mod Values
use lynk.Base.{
  ℕ, ◌+◌, Bytes, codes, Bool, true, false, List, [], ◌∷◌, ◌++◌, Option, none, some, not, bytes_eq,
  filter, map, find?, if◌then◌else◌,
}
use lynk.Effects.{World, App, get_db, put_db, pure, draw, handle, Result, ok, err, ◌>>=◌, ◌>>◌}
use lynk.Edge.Bloom.{Filter}

abbrev pub Headers : Type 0
Headers = List (Bytes × Bytes)

-- `Header.Values`, and `MD.Get` of gRPC metadata.
unfoldable pub values : Bytes → Headers → List Bytes
values name [] = []
values name ((n, v) ∷ h) = let rest = values name h in if bytes_eq n name then v ∷ rest else rest

abbrev pub first_or_blank : List Bytes → Bytes
first_or_blank [] = []
first_or_blank (v ∷ vs) = v

-- `Header.Get`
abbrev pub header : Bytes → Headers → Bytes
header name h = first_or_blank (values name h)

-- `Header.Del`
unfoldable pub delete : Bytes → Headers → Headers
delete name [] = []
delete name ((n, v) ∷ h) =
    let rest = delete name h in if bytes_eq n name then rest else (n, v) ∷ rest

-- `Header.Set`
unfoldable pub put : Bytes → Bytes → Headers → Headers
unfolding delete
put name value h = (name, value) ∷ delete name h

-- `Header.Add`
abbrev pub add : Bytes → Bytes → Headers → Headers
add name value h = h ++ (name, value) ∷ []

-- platform/auth/principal.go
pub record Principal : Type 0 where
  pub user_id : Bytes
  pub role : Bytes
  pub token_type : Bytes

-- The last four fields are what the middlewares put into the context and the body reader.
pub record Request : Type 0 where
  pub method : Bytes
  pub path : Bytes
  pub host : Bytes
  pub uri : Bytes
  pub remote_addr : Bytes
  pub tls : Bool
  pub headers : Headers
  pub cookies : List (Bytes × Bytes)
  pub request_id : Bytes
  pub nonce : Bytes
  pub principal : Option Principal
  pub body_limit : Option ℕ

pub record Cookie : Type 0 where
  pub name : Bytes
  pub value : Bytes
  pub max_age : ℕ
  pub http_only : Bool
  pub secure : Bool
  pub same_site_strict : Bool

pub record Response : Type 0 where
  pub status : Option ℕ
  pub headers : Headers
  pub cookies : List Cookie
  pub body : Bytes

-- The memory of one gateway process, with the response under way.
pub record Gate : Type 0 where
  pub global_count : ℕ
  pub global_window : ℕ
  pub filter : Filter
  pub response : Response

abbrev pub Act : Type 0
Act = App Gate (Unit {0})

abbrev pub Handler : Type 0
Handler = Request → Act

abbrev pub Middleware : Type 0
Middleware = Handler → Handler

-- The first middleware of the list runs outermost.
unfoldable pub chain : Handler → List Middleware → Handler
chain h [] = h
chain h (m ∷ ms) = m (chain h ms)

abbrev pub respond : (Response → Response) → Act
respond f = do g ← get_db; put_db (record g { response = f g.response })

-- `w.Header().Set`
abbrev pub set_header : Bytes → Bytes → Act
set_header name value = respond λ r. record r { headers = put name value r.headers }

-- `http.Error`
abbrev pub http_error : ℕ → Bytes → Act
http_error status text = respond λ r. record r { status = some status; body = text }

-- The value of the first cookie of that name.
abbrev pub cookie : Bytes → Request → Option Bytes
cookie name r = elim (find? (λ c. bytes_eq c.0 name) r.cookies) [ none ↦ none | some c ↦ some c.1 ]
