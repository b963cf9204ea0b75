-- ===== src/Rpc/Identity/Callers.antt =====
-- Which calls of the identity service need a caller (handler.go, platform/auth/interceptor.go).
use lynk.Base.{ℕ, ◌≡◌, ◌∙◌, Bytes, codes, Bool, true, false, [], none}
use lynk.Effects.{World}
use lynk.Identity.Database.{Db}
use lynk.Identity.Outside.{Outside}
use lynk.Identity.Sessions.{Lifetimes}
use lynk.Rpc.{
  status, failed, Context, unauthenticated_code, on_panic, to_status, to_grpc_code, serve,
  with_principal, principal_from_metadata, principal_of_id, metadata_value,
}
use lynk.Rpc.Server.{entered, tagged_id, serve_valid}
use lynk.Rpc.Identity.{Call, handle_call}

-- The calls that act on an account named by the context, or that need an administrator.
abbrev pub needs_caller : Call → Bool
needs_caller (Call.register_call email password full_name) = false
needs_caller (Call.login_call email password) = false
needs_caller (Call.refresh_call refresh_token) = false
needs_caller (Call.logout_call refresh_token access_token_id) = false
needs_caller (Call.request_password_reset_call email) = false
needs_caller (Call.reset_password_call email code new_password) = false
needs_caller (Call.validate_api_key_call key) = false
needs_caller _ = true

module _ (o : Outside) (t : Lifetimes) where
  handle_anonymous :
      (ctx : Context) (call : Call) (w : World Db)
      → ctx.principal ≡ none
      → needs_caller call ≡ true
      → on_panic (to_status (handle_call o t ctx call w))
        ≡ (failed (status unauthenticated_code (codes "authentication required")), w)
  unfolding handle_call with_principal to_status on_panic to_grpc_code
  handle_anonymous ctx (Call.register_call email password full_name) w p n = cc
  handle_anonymous ctx (Call.login_call email password) w p n = cc
  handle_anonymous ctx (Call.refresh_call refresh_token) w p n = cc
  handle_anonymous ctx (Call.logout_call refresh_token access_token_id) w p n = cc
  handle_anonymous ctx (Call.request_password_reset_call email) w p n = cc
  handle_anonymous ctx (Call.reset_password_call email code new_password) w p n = cc
  handle_anonymous ctx (Call.validate_api_key_call key) w p n = cc
  handle_anonymous ctx _ w p n = rw p

  -- Only a caller whom the metadata name gets at an account: without a value of `x-user-id`, each of
  -- the eight calls that concern the caller's own account, its keys or another one's role is refused
  -- as unauthenticated, and nothing is read, written or sent, but that a request id is drawn if the
  -- metadata bring none. (The request meets its contract.)
  pub serve_anonymous :
      (uuid : ℕ → ℕ → Bytes) (is_valid : Call → Bool) (ctx : Context) (call : Call) (w : World Db)
      → is_valid call ≡ true
      → ctx.principal ≡ none
      → metadata_value (codes "x-user-id") ctx.metadata ≡ []
      → needs_caller call ≡ true
      → serve uuid is_valid (handle_call o t) ctx call w ≡ (
        failed (status unauthenticated_code (codes "authentication required")),
        (tagged_id uuid (metadata_value (codes "x-request-id") ctx.metadata) w).1,
      )
  unfolding principal_from_metadata principal_of_id
  serve_anonymous uuid is_valid ctx call w valid unnamed no_id needs =
      serve_valid uuid is_valid (handle_call o t) ctx call w valid
      ∙ handle_anonymous (entered uuid ctx w).0 call (entered uuid ctx w).1 (rw no_id unnamed) needs
