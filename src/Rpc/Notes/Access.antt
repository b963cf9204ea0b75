-- ===== src/Rpc/Notes/Access.antt =====
-- The policy engine in front of an update (example/adapter/grpc/handler.go, authz/checker.go).
use lynk.Base.{ℕ, ◌≡◌, refl, ◌∙◌, Bytes, codes, Bool, true, false, List, [], some, any}
use lynk.Effects.{World}
use lynk.Authz.{Principal, CompiledPolicy, decide}
use lynk.Authz.Overrides.{denies, denied}
use lynk.Notes.Database.{Db}
use lynk.Notes.UseCases.{Outside}
use lynk.Rpc.{
  status, failed, Context, permission_denied_code, on_panic, to_status, to_grpc_code, serve,
  with_principal, principal_from_metadata, metadata_value,
}
use lynk.Rpc.Server.{entered, tagged_id, serve_valid}
use lynk.Rpc.Notes.{Call, handle_call, updater, update_vars}

decided :
    (policies : List CompiledPolicy) (p : Principal)
    → any (denies (update_vars p)) policies ≡ true
    → (decide policies (update_vars p)).allowed ≡ false
unfolding decide
decided policies p deny = denied (update_vars p) [] policies deny

module _ (o : Outside) (policies : List CompiledPolicy) where
  handle_denied :
      (ctx : Context) (id title body : Bytes) (version : ℕ) (p : Principal) (w : World Db)
      → ctx.principal ≡ some p
      → (decide policies (update_vars p)).allowed ≡ false
      → on_panic
          (to_status (handle_call o policies ctx (Call.update_note_call id title body version) w))
        ≡ (failed (status permission_denied_code (codes "not allowed to update notes")), w)
  unfolding handle_call updater with_principal to_status on_panic to_grpc_code
  handle_denied ctx id title body version p w known no_access = rw (known, no_access)

  -- One policy is enough to stop updates: while the policy set holds one that denies, and that applies
  -- to an update of a note by the caller whom the metadata name, the server refuses each of the
  -- caller's updates, whatever other policies allow, and no note is read or written; at most a request
  -- id is drawn. (The request meets its contract.)
  pub serve_denied :
      (uuid : ℕ → ℕ → Bytes) (is_valid : Call → Bool) (ctx : Context) (id title body : Bytes)
      (version : ℕ) (p : Principal) (w : World Db)
      → is_valid (Call.update_note_call id title body version) ≡ true
      → principal_from_metadata ctx.metadata ≡ some p
      → any (denies (update_vars p)) policies ≡ true
      → serve uuid is_valid
          (handle_call o policies)
          ctx
          (Call.update_note_call id title body version)
          w
        ≡ (
          failed (status permission_denied_code (codes "not allowed to update notes")),
          (tagged_id uuid (metadata_value (codes "x-request-id") ctx.metadata) w).1,
        )
  serve_denied uuid is_valid ctx id title body version p w valid named deny =
      serve_valid uuid is_valid (handle_call o policies) ctx
        (Call.update_note_call id title body version) w valid
      ∙ handle_denied (entered uuid ctx w).0 id title body version p (entered uuid ctx w).1
          (rw named refl) (decided policies p deny)
