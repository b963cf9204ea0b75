-- ===== src/Rpc/Server.antt =====
-- What the chain of interceptors (platform/grpcserver/server.go) makes of a handler, whatever it does.
use lynk.Base.{ℕ, ◌≡◌, Bytes, codes, Bool, true, false, [], ◌∷◌}
use lynk.Effects.{World, draw}
use lynk.Rpc.{
  status, failed, Context, Unary, invalid_argument, to_grpc_code, metadata_value,
  principal_from_metadata, on_panic, to_status, with_request_id, error_mapping, validation,
  trusted_header, serve, minted, or_unchanged,
}

-- The request id and the world after a request is tagged.
abbrev pub tagged_id : {D : Type 0} → (ℕ → ℕ → Bytes) → Bytes → World D → Bytes × World D
tagged_id uuid [] w = let drawn = draw w in (minted uuid w.now drawn.0, drawn.1)
tagged_id uuid (c ∷ id) w = (c ∷ id, w)

-- The context and the world in which the handler runs.
abbrev pub entered : {D : Type 0} → (ℕ → ℕ → Bytes) → Context → World D → Context × World D
entered uuid ctx w =
    let tagged = tagged_id uuid (metadata_value (codes "x-request-id") ctx.metadata) w in
    (
      record ctx {
        request_id = tagged.0;
        principal = or_unchanged ctx.principal (principal_from_metadata ctx.metadata);
      },
      tagged.1,
    )

module _ {D Req Res : Type 0} (uuid : ℕ → ℕ → Bytes) (is_valid : Req → Bool)
    (handler : Unary D Req Res) where
  tagged-serve :
      (ctx : Context) (req : Req) (id : Bytes) (w : World D)
      → is_valid req ≡ true
      → with_request_id uuid
          (error_mapping (validation is_valid (trusted_header handler)))
          ctx
          req
          id
          w
        ≡ (let tagged = tagged_id uuid id w in
            to_status (
              handler
                (record ctx {
                  request_id = tagged.0;
                  principal = or_unchanged ctx.principal (principal_from_metadata ctx.metadata);
                })
                req
                tagged.1))
  unfolding error_mapping validation trusted_header
  tagged-serve ctx req [] w ok_request = rw ok_request
  tagged-serve ctx req (c ∷ id) w ok_request = rw ok_request

  -- A valid request is answered as the handler answers it, with its errors as statuses and a panic as
  -- an internal one.
  pub serve_valid :
      (ctx : Context) (req : Req) (w : World D)
      → is_valid req ≡ true
      → let (inner, v) = entered uuid ctx w in
        serve uuid is_valid handler ctx req w ≡ on_panic (to_status (handler inner req v))
  unfolding serve
  serve_valid ctx req w ok_request = rw (tagged-serve ctx req _ w ok_request)

  tagged_refusal :
      (ctx : Context) (req : Req) (id : Bytes) (w : World D)
      → is_valid req ≡ false
      → with_request_id uuid
          (error_mapping (validation is_valid (trusted_header handler)))
          ctx
          req
          id
          w
        ≡ (
          failed (status invalid_argument (codes "request validation failed")),
          (tagged_id uuid id w).1,
        )
  unfolding error_mapping validation to_status to_grpc_code
  tagged_refusal ctx req [] w refused = rw refused
  tagged_refusal ctx req (c ∷ id) w refused = rw refused

  -- An invalid request does not reach the handler.
  pub serve_invalid :
      (ctx : Context) (req : Req) (w : World D)
      → is_valid req ≡ false
      → serve uuid is_valid handler ctx req w ≡ (
        failed (status invalid_argument (codes "request validation failed")),
        (entered uuid ctx w).1,
      )
  unfolding serve on_panic
  serve_invalid ctx req w refused = rw (tagged_refusal ctx req _ w refused)
