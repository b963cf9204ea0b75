-- ===== src/Rpc/Tests.antt =====
-- The server of the core service at concrete inputs.
use lynk.Base.{
  ℕ, ◌≡◌, refl, sym, ap, Bytes, codes, Bool, true, false, [], ◌∷◌, ◌++◌, map, append-nil, Option,
  none, some, bytes_eq, if◌then◌else◌,
}
use lynk.Effects.{World}
use lynk.Authz.{Principal, CompiledPolicy, truth}
use lynk.Edge.Http.{Act, Headers, values, http_error}
use lynk.Edge.Authentication.{Claims, claims_of, header_user_id, header_role, header_token_type}
use lynk.Edge.Chain.{build_handler}
use lynk.Edge.Http.Values.{values-append}
use lynk.Edge.Proxy.Forwarding.{values-map}
use lynk.Edge.Samples.{verify_sample, config, library}
use lynk.Rpc.Gateway.{HandsOn, IsKnown, anonymous, known, bridge, build_handler-bridge}
use lynk.Identity.Samples.{sample, lifetimes, world}
use lynk.Notes.Database.{Db}
use lynk.Notes.UseCases.{Outside}
use lynk.Rpc.{Context, Code, status, failed, serve, unauthenticated_code, permission_denied_code}
use lynk.Rpc.Identity
use lynk.Rpc.Identity.Callers.{serve_anonymous}
use lynk.Rpc.Identity.Refusals.{IsPublic, serve-IsPublic}
use lynk.Rpc.Notes
use lynk.Rpc.Notes.Access.{serve_denied}

abbrev uuid : ℕ → ℕ → Bytes
uuid now n = now ∷ n ∷ []

abbrev anybody : Context
anybody = record {
  metadata = (codes "x-request-id", codes "r1") ∷ [];
  principal = none;
  request_id = [];
}

abbrev any_call : {A : Type 0} → A → Bool
any_call c = true

serve-IsPublic_example :
    IsPublic
      (serve uuid any_call
        (Identity.handle_call sample lifetimes)
        anybody
        (Identity.Call.login_call (codes "ann@x") (codes "no"))
        world).0
serve-IsPublic_example =
    serve-IsPublic sample lifetimes uuid any_call anybody
      (Identity.Call.login_call (codes "ann@x") (codes "no")) world

serve_anonymous_example :
    serve uuid any_call
      (Identity.handle_call sample lifetimes)
      anybody
      (Identity.Call.set_user_role_call (codes "u1") (codes "admin"))
      world
    ≡ (failed (status unauthenticated_code (codes "authentication required")), world)
unfolding bytes_eq values
serve_anonymous_example =
    serve_anonymous sample lifetimes uuid any_call anybody
      (Identity.Call.set_user_role_call (codes "u1") (codes "admin")) world refl refl refl refl

abbrev ann_calls : Context
ann_calls = record {
  metadata =
      (codes "x-user-id", codes "ann")
      ∷ (codes "x-role", codes "user")
      ∷ (codes "x-request-id", codes "r2")
      ∷ [];
  principal = none;
  request_id = [];
}

abbrev suspension : CompiledPolicy
suspension = record {
  name = codes "suspended";
  effect = codes "deny";
  resource_type = codes "note";
  action = codes "*";
  program = λ v. truth (bytes_eq v.subject.user_id (codes "ann"));
}

abbrev notes_world : World Db
notes_world = record {
  db = record { notes = []; outbox = [] };
  in_tx = false;
  redis = λ k. none;
  now = 5;
  draws = 0;
  faults = [];
  published = [];
  mails = [];
}

abbrev notes_outside : Outside
notes_outside = record { scan_uuid = λ s. some s; uuid = uuid }

abbrev ann_principal : Principal
ann_principal = record { user_id = codes "ann"; role = codes "user"; token_type = [] }

serve_denied_example :
    serve uuid any_call
      (Notes.handle_call notes_outside (suspension ∷ []))
      ann_calls
      (Notes.Call.update_note_call (codes "n1") (codes "t") (codes "b") 1)
      notes_world
    ≡ (failed (status permission_denied_code (codes "not allowed to update notes")), notes_world)
unfolding bytes_eq values lynk.Rpc.principal_from_metadata lynk.Authz.applies lynk.Authz.is_deny
serve_denied_example =
    serve_denied notes_outside (suspension ∷ []) uuid any_call ann_calls (codes "n1") (codes "t")
      (codes "b") 1 ann_principal notes_world refl refl refl

-- The wrapper, on the three identity headers.
abbrev hand_on : Headers → Headers
hand_on h =
    map (λ v. (codes "x-user-id", v)) (values header_user_id h)
    ++ (map (λ v. (codes "x-role", v)) (values header_role h)
        ++ map (λ v. (codes "x-token-type", v)) (values header_token_type h))

hand_on-HandsOn : HandsOn hand_on
unfolding bytes_eq
hand_on-HandsOn = record {
  user_id = λ h. simp (values-append, values-map, append-nil);
  role = λ h. simp (values-append, values-map, append-nil);
  token_type = λ h. simp (values-append, values-map, append-nil);
}

abbrev unrouted : Act
unrouted = http_error 404 []

abbrev whoami : Option Principal → Bytes → Act
whoami none path = http_error 200 (codes "nobody")
whoami (some p) path = http_error 200 p.user_id

abbrev with_root : Option Principal → Bytes → Act
with_root none path = http_error 200 (codes "nobody")
with_root (some p) path =
    if bytes_eq p.user_id (codes "root") then http_error 500 [] else http_error 200 p.user_id

subject_is :
    (token : Bytes) (c : Claims)
    → claims_of (some verify_sample) token ≡ some c
    → c.subject ≡ codes "u1"
subject_is [] c h = cc
subject_is (x ∷ s) c h = sym (ap (λ o. elim o [ none ↦ [] | some d ↦ d.subject ]) h)

whoami-with_root : (p : Option Principal) → IsKnown (some verify_sample) p → whoami p ≡ with_root p
unfolding bytes_eq
whoami-with_root _ anonymous = refl
whoami-with_root _ (known token c h) = rw (subject_is token c h)

build_handler-bridge_example :
    build_handler config library (some verify_sample) (bridge hand_on unrouted whoami)
    ≡ build_handler config library (some verify_sample) (bridge hand_on unrouted with_root)
build_handler-bridge_example =
    build_handler-bridge (some verify_sample) hand_on hand_on-HandsOn config library unrouted whoami
      with_root whoami-with_root
