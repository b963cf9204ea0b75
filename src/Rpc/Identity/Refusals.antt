-- ===== src/Rpc/Identity/Refusals.antt =====
-- What a client of the identity service may read in a refusal (handler.go, errormap.go).
use lynk.Base.{
  ℕ, ◌≡◌, refl, Bytes, codes, Bool, true, List, [], ◌∷◌, Option, none, some, any, bytes_eq,
  Bool-cases, inl, inr,
}
use lynk.Effects.{World, Result, ok, err, Error}
use lynk.Identity.Database.{Db}
use lynk.Identity.Outside.{Outside}
use lynk.Identity.Sessions.{Lifetimes}
use lynk.Authz.{Principal}
use lynk.Rpc.{
  app, plain, status, Outcome, reply, failed, panicked, Rpc, Context, Code, internal_code,
  invalid_argument, not_found_code, already_exists_code, unauthenticated_code,
  permission_denied_code, aborted, resource_exhausted, unavailable_code, on_panic, to_status,
  to_grpc_code, serve, with_principal,
}
use lynk.Rpc.Server.{serve_valid, serve_invalid}
use lynk.Rpc.Identity.{Call, Answer, classify, conclude, role_setter, handle_call, is_admin}

-- The whole vocabulary of the refusals, by status code.
abbrev pub messages : Code → List Bytes
messages internal_code = codes "internal error" ∷ codes "internal server error" ∷ []
messages invalid_argument =
    codes "request validation failed"
    ∷ codes "invalid email address"
    ∷ codes "invalid user id"
    ∷ codes "user requires a name"
    ∷ codes "role must be 1-50 characters"
    ∷ codes "identity: corrupt user email: invalid email address"
    ∷ codes "identity: corrupt user id: invalid user id"
    ∷ []
messages not_found_code = codes "user not found" ∷ []
messages already_exists_code = codes "email already registered" ∷ []
messages unauthenticated_code =
    codes "authentication required"
    ∷ codes "invalid credentials"
    ∷ codes "invalid or expired code"
    ∷ codes "invalid api key"
    ∷ []
messages permission_denied_code = codes "admin access required" ∷ codes "account disabled" ∷ []
messages aborted = codes "account was modified concurrently, retry" ∷ []
messages resource_exhausted = codes "too many attempts, try again later" ∷ []
messages unavailable_code = []

-- An answer on the wire.
abbrev pub IsPublic : Outcome Answer → Type 0
IsPublic (reply a) = Unit {0}
IsPublic (failed (status c m)) = any (bytes_eq m) (messages c) ≡ true
IsPublic (failed (app e)) = ⊥
IsPublic (failed (plain e)) = ⊥
IsPublic panicked = ⊥

-- What a handler returns, so that the answer on the wire is public.
abbrev IsClassified : Outcome Answer → Type 0
IsClassified (reply a) = Unit {0}
IsClassified (failed (app e)) = any (bytes_eq e.message) (messages (to_grpc_code e.kind)) ≡ true
IsClassified (failed (status c m)) = ⊥
IsClassified (failed (plain e)) = ⊥
IsClassified panicked = ⊥

classify-IsClassified : (e : Error) → IsClassified (failed (app (classify e)))
unfolding classify to_grpc_code bytes_eq
classify-IsClassified Error.user_not_found = refl
classify-IsClassified _ = refl

conclude-IsClassified :
    {A : Type 0} (f : A → Answer) (r : Result A × World Db) → IsClassified (conclude f r).0
unfolding conclude
conclude-IsClassified f (ok a, w) = tt
conclude-IsClassified f (err e, w) = classify-IsClassified e

with_principal-IsClassified :
    (p : Option Principal) (f : Principal → Rpc Db Answer) (w : World Db)
    → ((q : Principal) → IsClassified (f q w).0)
    → IsClassified (with_principal p f w).0
unfolding with_principal to_grpc_code bytes_eq
with_principal-IsClassified none f w each = refl
with_principal-IsClassified (some p) f w each = each p

module _ (o : Outside) (t : Lifetimes) where
  role_setter-IsClassified :
      (user_id role : Bytes) (p : Principal) (w : World Db)
      → IsClassified (role_setter o t user_id role p w).0
  unfolding role_setter to_grpc_code bytes_eq
  role_setter-IsClassified user_id role p w = elim (Bool-cases (is_admin p)) [
    | inl yes_admin ↦ rw yes_admin (conclude-IsClassified _ _)
    | inr other ↦ rw other refl
  ]

  handle_call-IsClassified :
      (ctx : Context) (call : Call) (w : World Db) → IsClassified (handle_call o t ctx call w).0
  unfolding handle_call
  handle_call-IsClassified ctx (Call.register_call email password full_name) w =
      conclude-IsClassified _ _
  handle_call-IsClassified ctx (Call.login_call email password) w = conclude-IsClassified _ _
  handle_call-IsClassified ctx (Call.refresh_call refresh_token) w = conclude-IsClassified _ _
  handle_call-IsClassified ctx (Call.logout_call refresh_token access_token_id) w =
      conclude-IsClassified _ _
  handle_call-IsClassified ctx (Call.request_password_reset_call email) w =
      conclude-IsClassified _ _
  handle_call-IsClassified ctx (Call.reset_password_call email code new_password) w =
      conclude-IsClassified _ _
  handle_call-IsClassified ctx (Call.validate_api_key_call key) w = conclude-IsClassified _ _
  handle_call-IsClassified ctx (Call.set_user_role_call user_id role) w =
      with_principal-IsClassified ctx.principal _ w λ p. role_setter-IsClassified user_id role p w
  handle_call-IsClassified ctx _ w =
      with_principal-IsClassified ctx.principal _ w λ p. conclude-IsClassified _ _

  to_status-IsPublic :
      (r : Outcome Answer × World Db) → IsClassified r.0 → IsPublic (on_panic (to_status r)).0
  unfolding on_panic to_status
  to_status-IsPublic (reply a, w) h = tt
  to_status-IsPublic (failed (app e), w) h = h
  to_status-IsPublic (failed (status c m), w) h = absurd h
  to_status-IsPublic (failed (plain e), w) h = absurd h
  to_status-IsPublic (panicked, w) h = absurd h

  -- Refusals have a fixed vocabulary: whatever a caller asks of the identity service, and whichever of
  -- the calls to the database, to Redis and to the entropy source fail, the answer is a reply or a
  -- status with one of nineteen fixed texts, each under its own code. No text of a store or a library
  -- comes out; two of the texts, for a stored user whose id or address does not validate, are those of
  -- an error below the handler.
  pub serve-IsPublic :
      (uuid : ℕ → ℕ → Bytes) (is_valid : Call → Bool) (ctx : Context) (call : Call) (w : World Db)
      → IsPublic (serve uuid is_valid (handle_call o t) ctx call w).0
  unfolding bytes_eq
  serve-IsPublic uuid is_valid ctx call w = elim (Bool-cases (is_valid call)) [
    | inl valid ↦
        rw (serve_valid uuid is_valid (handle_call o t) ctx call w valid)
          (to_status-IsPublic _ (handle_call-IsClassified _ call _))
    | inr invalid ↦ rw (serve_invalid uuid is_valid (handle_call o t) ctx call w invalid) refl
  ]
