-- ===== src/Edge/Headers/Origins.antt =====
-- What CORS (edge/security.go) tells a browser.
use lynk.Base.{
  ◌≡◌, inl, inr, Bytes, codes, List, [], ◌∷◌, some, bytes_eq, if◌then◌else◌, Bool-cases,
}
use lynk.Effects.{World, ok, pure, get_db, put_db}
use lynk.Edge.Http.{Request, Gate, Handler, Headers, header, values, respond}
use lynk.Edge.Http.Values.{values-put, values-append}
use lynk.Edge.Headers.{cors, mark_origin, is_allowed, reflect}

abbrev allow_origin : Bytes
allow_origin = codes "Access-Control-Allow-Origin"

values-reflect :
    (allowed : List Bytes) (origin : Bytes) (h : Headers)
    → values allow_origin (reflect allowed origin h) ≡ origin ∷ []
unfolding bytes_eq values
values-reflect allowed origin h = simp (values-append, values-put)

mark_origin-ok :
    (allowed : List Bytes) (origin : Bytes) (w : World Gate)
    → (mark_origin allowed origin w).0 ≡ ok tt
unfolding mark_origin get_db put_db pure
mark_origin-ok allowed origin w = elim (Bool-cases (is_allowed allowed origin)) [
  | inl b ↦ rw b
  | inr b ↦ rw b
]

mark_origin-values :
    (allowed : List Bytes) (origin : Bytes) (w : World Gate)
    → values allow_origin (mark_origin allowed origin w).1.db.response.headers ≡ (
        if is_allowed allowed origin
        then origin ∷ []
        else values allow_origin w.db.response.headers)
unfolding mark_origin get_db put_db pure
mark_origin-values allowed origin w = elim (Bool-cases (is_allowed allowed origin)) [
  | inl b ↦ rw b (values-reflect allowed origin w.db.response.headers)
  | inr b ↦ rw b
]

-- The origins that a browser is told: the response names the request's own origin, and nothing
-- else, if that is on the list, and otherwise what it named before. A preflight is answered 204
-- there and then; any other request goes on.
pub cors-Origin :
    (allowed : List Bytes) (next : Handler) (r : Request) (w : World Gate)
    → (v : World Gate) × (cors allowed next r w
        ≡ (if bytes_eq r.method (codes "OPTIONS")
              then respond (λ p. record p { status = some 204 })
              else next r)
            v)
      × (values allow_origin v.db.response.headers ≡ (
          if is_allowed allowed (header (codes "Origin") r.headers)
          then header (codes "Origin") r.headers ∷ []
          else values allow_origin w.db.response.headers))
unfolding cors
cors-Origin allowed next r w =
    let origin = header (codes "Origin") r.headers in
    (
      (mark_origin allowed origin w).1,
      rw (mark_origin-ok allowed origin w),
      mark_origin-values allowed origin w,
    )
