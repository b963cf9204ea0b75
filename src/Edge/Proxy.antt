-- ===== src/Edge/Proxy.antt =====
-- The routes of the bridge and what it forwards (services/gateway/internal/edge/proxy.go). A
-- connection is the name of its backend. `metadata` is how the gRPC-Web wrapper hands the headers
-- of a request on.
pub mod Forwarding
mod Tests
use lynk.Base.{
  ℕ, Bytes, codes, Bool, true, false, List, [], ◌∷◌, ◌++◌, Option, none, some, has_prefix,
  cut_prefix, map, if◌then◌else◌,
}
use lynk.Edge.Http.{Headers, values, delete}

pub record Route : Type 0 where
  pub package_prefix : Bytes
  pub backend : Bytes

abbrev pub routes : List Route
routes =
    record { package_prefix = codes "example."; backend = codes "core" }
    ∷ record { package_prefix = codes "identity."; backend = codes "core" }
    ∷ record { package_prefix = codes "authz."; backend = codes "core" }
    ∷ record { package_prefix = codes "audit."; backend = codes "core" }
    ∷ []

abbrev pub forwardable_headers : List Bytes
forwardable_headers =
    codes "x-user-id" ∷ codes "x-role" ∷ codes "x-token-type" ∷ codes "x-request-id" ∷ []

-- `strings.TrimPrefix(path, "/")`
abbrev pub trimmed : Bytes → Bytes
trimmed path = elim (cut_prefix (codes "/") path) [ none ↦ path | some rest ↦ rest ]

unfoldable pub route_of : List Route → Bytes → Option Bytes
route_of [] path = none
route_of (r ∷ rs) path =
    let rest = route_of rs path in if has_prefix r.package_prefix path then some r.backend else rest

unfoldable pub resolve : Bytes → Option Bytes
unfolding route_of cut_prefix
resolve path = route_of routes (trimmed path)

-- `MD.Set` with all values of a key.
unfoldable pub set_all : Bytes → List Bytes → Headers → Headers
unfolding delete
set_all key vs md = map (λ v. (key, v)) vs ++ delete key md

abbrev pub set_if_any : Bytes → List Bytes → Headers → Headers
set_if_any key [] md = md
set_if_any key (v ∷ vs) md = set_all key (v ∷ vs) md

-- The loop over the allowlist, from its first key on.
unfoldable pub forward : List Bytes → Headers → Headers → Headers
unfolding set_all values
forward [] incoming md = md
forward (key ∷ keys) incoming md = forward keys incoming (set_if_any key (values key incoming) md)

-- The backend and the outgoing metadata; `none` is Unimplemented.
abbrev pub connected : Headers → Option Bytes → Option (Bytes × Headers)
connected md none = none
connected md (some conn) = some (conn, md)

unfoldable pub direct : Headers → Bytes → Option (Bytes × Headers)
unfolding resolve forward
direct incoming full_method =
    connected (forward forwardable_headers incoming []) (resolve full_method)
