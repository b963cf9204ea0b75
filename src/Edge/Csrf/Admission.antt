-- ===== src/Edge/Csrf/Admission.antt =====
-- Which requests the double-submit check (edge/csrf.go) lets through.
use lynk.Base.{
  ℕ, ◌+◌, sym, ◌≡◌, ◌≢◌, ◌⊎◌, inl, inr, refl, Bytes, codes, Bool, true, false, [], ◌∷◌, ◌++◌,
  Option, none, some, bytes_eq, bytes_eq_iff, bytes_eq_refl, Bool-cases,
}
use lynk.Effects.{World, draw, get_db, put_db, calm, attempt}
use lynk.Edge.Http.{Request, Gate, Handler, header, cookie, http_error}
use lynk.Edge.Csrf.{
  csrf, is_safe_method, has_bearer, is_grpc_web, csrf_cookie_name, csrf_header_name, csrf_cookie,
  ensure_csrf_cookie, present, or_blank,
}

-- The request carries the same token twice, in the cookie and in the header.
pub record Echoes (r : Request) : Type 0 where
  pub token : Bytes
  pub in_cookie : cookie csrf_cookie_name r ≡ some token
  pub in_header : header csrf_header_name r.headers ≡ token
  pub not_blank : token ≢ []

module _ (hex_token : ℕ → Bytes) (is_production : Bool) (next : Handler) (r : Request) where
  present-some : (t : Bytes) → t ≢ [] → present (some t) ≡ true
  present-some [] h = absurd (h refl)
  present-some (c ∷ t) h = refl

  no_match :
      (found : Option Bytes)
      → cookie csrf_cookie_name r ≡ found
      → ¬ Echoes r
      → (present found ≡ false)
        ⊎ (bytes_eq (or_blank found) (header csrf_header_name r.headers) ≡ false)
  no_match none e h = inl refl
  no_match (some []) e h = inl refl
  no_match (some (c ∷ t)) e h =
      elim (Bool-cases (bytes_eq (c ∷ t) (header csrf_header_name r.headers))) [
        | inl same ↦ absurd (
            h (record {
              token = c ∷ t;
              in_cookie = e;
              in_header = sym ((bytes_eq_iff (c ∷ t) (header csrf_header_name r.headers)).0 same);
              not_blank = λ b. cc;
            }))
        | inr other ↦ inr other
      ]

  -- A request that may change something, and shows neither a bearer token nor the content type of
  -- gRPC-Web, goes no further than this check if it does not carry one token twice, in the cookie
  -- and in the header: it is answered 403, and nothing else has happened.
  pub csrf_refused :
      (w : World Gate)
      → is_safe_method r.method ≡ false
      → has_bearer r ≡ false
      → is_grpc_web r ≡ false
      → ¬ Echoes r
      → (text : Bytes) × (csrf hex_token is_production next r w ≡ http_error 403 text w)
  unfolding csrf
  csrf_refused w s b g h = elim (Bool-cases (present (cookie csrf_cookie_name r))) [
    | inl there ↦ (
      codes "CSRF token mismatch",
      elim (no_match (cookie csrf_cookie_name r) refl h) [
        | inl gone ↦ cc
        | inr other ↦ rw (s, b, g, there, other)
      ],
    )
    | inr gone ↦ (codes "CSRF token missing", rw (s, b, g, gone))
  ]

  -- A request that carries one token twice goes on to the next handler, after a fresh token has been
  -- set as its cookie. (It may change something and has no bearer token and not the content type of
  -- gRPC-Web; the entropy source answers.)
  pub csrf_admitted :
      (w : World Gate)
      → is_safe_method r.method ≡ false
      → has_bearer r ≡ false
      → is_grpc_web r ≡ false
      → Echoes r
      → csrf hex_token is_production next r (calm w)
        ≡ next r (record (calm w) {
          draws = w.draws + 1;
          db = record w.db {
            response = record w.db.response {
              cookies = w.db.response.cookies ++ csrf_cookie hex_token is_production w.draws ∷ [];
            };
          };
        })
  unfolding csrf ensure_csrf_cookie draw attempt get_db put_db
  csrf_admitted w s b g h =
      rw
        (s, b, g, h.in_cookie, h.in_header, present-some h.token h.not_blank, bytes_eq_refl h.token)
