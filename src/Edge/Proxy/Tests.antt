-- ===== src/Edge/Proxy/Tests.antt =====
-- The theorem on forwarding at a concrete input.
use lynk.Base.{◌≡◌, refl, codes, [], ◌∷◌, none, some, bytes_eq, has_prefix, cut_prefix}
use lynk.Edge.Http.{Headers, values, delete}
use lynk.Edge.Proxy.{direct, resolve, route_of, forward, set_all}

abbrev incoming : Headers
incoming = (codes "x-role", codes "user") ∷ (codes "cookie", codes "secret") ∷ []

abbrev sent : Headers
sent = (codes "x-role", codes "user") ∷ []

to_core : direct incoming (codes "/identity.v1.IdentityService/Login") ≡ some (codes "core", sent)
unfolding direct resolve route_of forward set_all values delete bytes_eq has_prefix cut_prefix
to_core = refl

nowhere : direct incoming (codes "/admin.v1.AdminService/Drop") ≡ none
unfolding direct resolve route_of has_prefix cut_prefix
nowhere = refl
