-- ===== src/Rpc.antt =====
-- Classified errors and the interceptors of the gRPC server of the core service
-- (services/core/internal/platform: apperror/apperror.go, auth/interceptor.go, grpcserver). A handler
-- may panic. Deadlines, logging and TLS only observe or abort, and are left out; whether a message
-- meets the constraints of its contract is a parameter.
pub mod Server
pub mod Identity
pub mod Notes
pub mod Gateway
mod Tests
use lynk.Base.{ℕ, Bytes, codes, Bool, true, false, List, [], ◌∷◌, Option, none, some, if◌then◌else◌}
use lynk.Effects.{World, App, Result, ok, err, Error, draw}
use lynk.Edge.Http.{Headers, values}
use lynk.Authz.{Principal}

-- The categories of apperror.
pub data Kind : Type 0 where
  internal invalid_input not_found already_exists unauthenticated : Kind
  permission_denied conflict rate_limited unavailable : Kind

-- The codes of gRPC that the service answers with.
pub data Code : Type 0 where
  internal_code invalid_argument not_found_code already_exists_code unauthenticated_code : Code
  permission_denied_code aborted resource_exhausted unavailable_code : Code

pub record AppError : Type 0 where
  pub kind : Kind
  pub code : Bytes
  pub message : Bytes
  pub cause : Option Error

abbrev pub new : Kind → Bytes → Bytes → AppError
new kind code message = record { kind = kind; code = code; message = message; cause = none }

abbrev pub wrap : Error → Kind → Bytes → Bytes → AppError
wrap cause kind code message = record {
  kind = kind;
  code = code;
  message = message;
  cause = some cause;
}

-- What a handler returns as `error`: a classified one, one that nobody classified, or a status.
pub data Failure : Type 0 where
  app : AppError → Failure
  plain : Error → Failure
  status : Code → Bytes → Failure

pub data Outcome (A : Type 0) : Type 0 where
  reply : A → Outcome A
  failed : Failure → Outcome A
  panicked : Outcome A

abbrev pub Rpc : Type 0 → Type 0 → Type 0
Rpc D A = World D → Outcome A × World D

-- What the interceptors put into the context of a request, and its metadata.
pub record Context : Type 0 where
  pub metadata : Headers
  pub principal : Option Principal
  pub request_id : Bytes

pub to_grpc_code : Kind → Code
to_grpc_code internal = internal_code
to_grpc_code invalid_input = invalid_argument
to_grpc_code not_found = not_found_code
to_grpc_code already_exists = already_exists_code
to_grpc_code unauthenticated = unauthenticated_code
to_grpc_code permission_denied = permission_denied_code
to_grpc_code conflict = aborted
to_grpc_code rate_limited = resource_exhausted
to_grpc_code unavailable = unavailable_code

abbrev pub first_value : List Bytes → Bytes
first_value [] = []
first_value (v ∷ vs) = v

-- `MD.Get`, the first value.
abbrev pub metadata_value : Bytes → Headers → Bytes
metadata_value key md = first_value (values key md)

unfoldable pub principal_of_id : Bytes → Headers → Option Principal
principal_of_id [] md = none
principal_of_id (c ∷ id) md = some (record {
  user_id = c ∷ id;
  role = metadata_value (codes "x-role") md;
  token_type = metadata_value (codes "x-token-type") md;
})

-- withPrincipalFromMetadata
unfoldable pub principal_from_metadata : Headers → Option Principal
unfolding principal_of_id
principal_from_metadata md = principal_of_id (metadata_value (codes "x-user-id") md) md

abbrev pub Unary : Type 0 → Type 0 → Type 0 → Type 0
Unary D Req Res = Context → Req → Rpc D Res

-- On the result of `UUIDv7`.
abbrev pub minted : (ℕ → ℕ → Bytes) → ℕ → Result ℕ → Bytes
minted uuid now (ok n) = uuid now n
minted uuid now (err e) = codes "unavailable"

-- The context keeps its principal when the metadata name none.
abbrev pub or_unchanged : Option Principal → Option Principal → Option Principal
or_unchanged before none = before
or_unchanged before (some p) = some p

module _ {D Res : Type 0} where
  unfoldable pub on_panic : Outcome Res × World D → Outcome Res × World D
  on_panic (panicked, w) = (failed (status internal_code (codes "internal server error")), w)
  on_panic (reply a, w) = (reply a, w)
  on_panic (failed e, w) = (failed e, w)

  unfoldable pub to_status : Outcome Res × World D → Outcome Res × World D
  unfolding to_grpc_code
  to_status (failed (app e), w) = (failed (status (to_grpc_code e.kind) e.message), w)
  to_status (failed (plain e), w) = (failed (plain e), w)
  to_status (failed (status c m), w) = (failed (status c m), w)
  to_status (reply a, w) = (reply a, w)
  to_status (panicked, w) = (panicked, w)

module _ {D Req Res : Type 0} where
  unfoldable pub recovery : Unary D Req Res → Unary D Req Res
  unfolding on_panic
  recovery handler ctx req w = on_panic (handler ctx req w)

  abbrev pub with_request_id : (ℕ → ℕ → Bytes) → Unary D Req Res → Context → Req → Bytes → Rpc D Res
  with_request_id uuid handler ctx req [] w =
      let drawn = draw w in
      handler (record ctx { request_id = minted uuid w.now drawn.0 }) req drawn.1
  with_request_id uuid handler ctx req (c ∷ id) w =
      handler (record ctx { request_id = c ∷ id }) req w

  unfoldable pub request_id : (ℕ → ℕ → Bytes) → Unary D Req Res → Unary D Req Res
  request_id uuid handler ctx req =
      with_request_id uuid handler ctx req (metadata_value (codes "x-request-id") ctx.metadata)

  unfoldable pub error_mapping : Unary D Req Res → Unary D Req Res
  unfolding to_status
  error_mapping handler ctx req w = to_status (handler ctx req w)

  unfoldable pub validation : (Req → Bool) → Unary D Req Res → Unary D Req Res
  validation is_valid handler ctx req w = if is_valid req then handler ctx req w else (
    failed (app (new invalid_input (codes "invalid_input") (codes "request validation failed"))),
    w,
  )

  -- TrustedHeaderInterceptor
  unfoldable pub trusted_header : Unary D Req Res → Unary D Req Res
  trusted_header handler ctx req =
      handler
        (record ctx {
          principal = or_unchanged ctx.principal (principal_from_metadata ctx.metadata);
        })
        req

  -- The unary chain of `New`, with the interceptor that bootstrap/app.go adds.
  unfoldable pub serve : (ℕ → ℕ → Bytes) → (Req → Bool) → Unary D Req Res → Unary D Req Res
  unfolding recovery request_id error_mapping validation trusted_header
  serve uuid is_valid handler =
      recovery (request_id uuid (error_mapping (validation is_valid (trusted_header handler))))

-- requirePrincipal: a handler for a caller who is known.
unfoldable pub with_principal : {D A : Type 0} → Option Principal → (Principal → Rpc D A) → Rpc D A
with_principal none f w = (
  failed (app (new unauthenticated (codes "unauthenticated") (codes "authentication required"))),
  w,
)
with_principal (some p) f w = f p w
