-- ===== src/Edge/Csrf/Tests.antt =====
-- The theorems on the double-submit check at concrete inputs.
use lynk.Base.{ℕ, ◌≡◌, refl, sym, Bytes, codes, true, false, [], ◌∷◌, bytes_eq, has_prefix}
use lynk.Effects.{ok}
use lynk.Edge.Http.{Request, Handler, values, http_error}
use lynk.Edge.Csrf.{csrf, is_safe_method, has_bearer, is_grpc_web}
use lynk.Edge.Csrf.Admission.{Echoes, csrf_refused}
use lynk.Edge.Samples.{request, gateway}

abbrev hex : ℕ → Bytes
hex n = b'h' ∷ n ∷ []

abbrev done : Handler
done r w = (ok tt, w)

abbrev echoing : Request
echoing = record request {
  headers = (codes "X-Xsrf-Token", codes "abc") ∷ [];
  cookies = (codes "XSRF-TOKEN", codes "abc") ∷ [];
}

-- Only the cookie, as a form on a foreign page would send it.
abbrev one_sided : Request
one_sided = record request { cookies = (codes "XSRF-TOKEN", codes "abc") ∷ [] }

unsafe : is_safe_method request.method ≡ false
unfolding is_safe_method bytes_eq
unsafe = refl

bearer : (has_bearer echoing ≡ false) × (has_bearer one_sided ≡ false)
unfolding has_bearer values bytes_eq has_prefix
bearer = (refl, refl)

plain : (is_grpc_web echoing ≡ false) × (is_grpc_web one_sided ≡ false)
unfolding is_grpc_web values bytes_eq has_prefix
plain = (refl, refl)

echoes : Echoes echoing
unfolding bytes_eq values
echoes = record { token = codes "abc"; in_cookie = refl; in_header = refl; not_blank = λ e. cc }

token_missing : ¬ Echoes one_sided
unfolding bytes_eq values
token_missing e = e.not_blank (sym e.in_header)

csrf_refused_example :
    (text : Bytes) × (csrf hex true done one_sided gateway ≡ http_error 403 text gateway)
csrf_refused_example =
    csrf_refused hex true done one_sided gateway unsafe bearer.1 plain.1 token_missing
