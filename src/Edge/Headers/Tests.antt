-- ===== src/Edge/Headers/Tests.antt =====
-- The theorem on CORS at a concrete input.
use lynk.Base.{◌≡◌, refl, Bytes, codes, true, List, [], ◌∷◌, bytes_eq}
use lynk.Effects.{ok}
use lynk.Edge.Http.{Request, Handler, values, header}
use lynk.Edge.Headers.{is_allowed}
use lynk.Edge.Samples.{request}

abbrev from_app : Request
from_app = record request { headers = (codes "Origin", codes "https://app") ∷ [] }

abbrev done : Handler
done r w = (ok tt, w)

abbrev origins : List Bytes
origins = codes "https://app" ∷ []

app_is_allowed : is_allowed origins (header (codes "Origin") from_app.headers) ≡ true
unfolding is_allowed bytes_eq values
app_is_allowed = refl
