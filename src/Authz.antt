-- ===== src/Authz.antt =====
-- The decision engine and its handlers (services/core/internal/modules/authz: checker.go, handler.go;
-- the statements of sqlc/queries/authz.sql). CEL is a parameter, and so is the collation that the
-- database sorts names by.
pub mod Overrides
pub mod Administration
mod Tests
use lynk.Base.{
  ℕ, ◌+◌, ◌-◌, ◌/◌, ◌^◌, Bytes, codes, Bool, true, false, not, ◌&&◌, ◌||◌, List, [], ◌∷◌, ◌++◌,
  Option, none, some, any, filter, map, update_where, ltb, bytes_eq, length, ◌==◌, if◌then◌else◌,
}
use lynk.Effects.{
  World, App, Result, ok, err, Error, unauthenticated, admin_required, invalid_input,
  invalid_condition, policy_not_found, internal, pure, raise, get_db, put_db, get_now, attempt,
  draw, handle, ◌>>=◌, ◌>>◌,
}

-- platform/auth: the verified principal.
pub record Principal : Type 0 where
  pub user_id : Bytes
  pub role : Bytes
  pub token_type : Bytes

-- What a condition may refer to.
pub record Vars : Type 0 where
  pub subject : Principal
  pub resource_type : Bytes
  pub action : Bytes
  pub resource : List (Bytes × Bytes)

-- The outcome of an evaluation.
pub data Outcome : Type 0 where
  eval_error not_bool : Outcome
  truth : Bool → Outcome

abbrev pub Program : Type 0
Program = Vars → Outcome

pub record Policy : Type 0 where
  pub name : Bytes
  pub effect : Bytes
  pub resource_type : Bytes
  pub action : Bytes
  pub condition : Bytes
  pub enabled : Bool

pub record CompiledPolicy : Type 0 where
  pub name : Bytes
  pub effect : Bytes
  pub resource_type : Bytes
  pub action : Bytes
  pub program : Program

-- An empty name for the default.
pub record Decision : Type 0 where
  pub allowed : Bool
  pub decided_by : Bytes

abbrev pub matches : Bytes → Bytes → Bool
matches pattern value = bytes_eq pattern (codes "*") || bytes_eq pattern value

abbrev pub holds : Outcome → Bool
holds eval_error = false
holds not_bool = false
holds (truth b) = b

-- The policy is about this request, and its condition is true of it.
unfoldable pub applies : Vars → CompiledPolicy → Bool
unfolding bytes_eq
applies v p =
    matches p.resource_type v.resource_type && matches p.action v.action && holds (p.program v)

unfoldable pub is_deny : CompiledPolicy → Bool
unfolding bytes_eq
is_deny p = bytes_eq p.effect (codes "deny")

abbrev pub is_blank : Bytes → Bool
is_blank [] = true
is_blank (c ∷ s) = false

-- The loop of `Decide`, with the first allowing name so far.
unfoldable pub decide_from : Vars → Bytes → List CompiledPolicy → Decision
unfolding applies is_deny
decide_from v allowed_by [] =
    if not (is_blank allowed_by)
    then record { allowed = true; decided_by = allowed_by }
    else record { allowed = false; decided_by = [] }
decide_from v allowed_by (p ∷ ps) =
    let skipped = decide_from v allowed_by ps in
    let taken = decide_from v p.name ps in
    if not (applies v p)
    then skipped
    else if is_deny p
    then record { allowed = false; decided_by = p.name }
    else if is_blank allowed_by
    then taken
    else skipped

unfoldable pub decide : List CompiledPolicy → Vars → Decision
unfolding decide_from
decide ps v = decide_from v [] ps

-- The checker of one instance; `loaded_at` is in milliseconds.
pub record Checker : Type 0 where
  pub policies : List CompiledPolicy
  pub loaded_at : ℕ
  pub refreshing : Bool

abbrev pub cache_ttl_ms : ℕ
cache_ttl_ms = 60000

-- `maybeRefresh`: whether this caller starts the reload.
unfoldable pub maybe_refresh : ℕ → Checker → Bool × Checker
maybe_refresh now_ms c =
    if ltb (now_ms - c.loaded_at) cache_ttl_ms || c.refreshing
    then (false, c)
    else (true, record c { refreshing = true })

pub record State : Type 0 where
  pub rows : List Policy
  pub checker : Checker

abbrev pub Action : Type 0 → Type 0
Action = App State

unfoldable pub require_admin : Option Principal → Action (Unit {0})
unfolding bytes_eq
require_admin none = raise unauthenticated
require_admin (some p) =
    if not (bytes_eq p.role (codes "admin")) && not (bytes_eq p.token_type (codes "admin"))
    then raise admin_required
    else pure tt

-- `apperror.Wrap(err, KindInternal, …)`
abbrev pub or_internal : {A : Type 0} → Action A → Action A
or_internal m = handle m λ r w. elim r [ ok a ↦ (ok a, w) | err e ↦ (err internal, w) ]

-- The subject is the verified principal, never a field of the request.
unfoldable pub check : Option Principal → Bytes → Bytes → List (Bytes × Bytes) → Action Decision
unfolding decide
check none resource_type action resource = raise unauthenticated
check (some p) resource_type action resource = do
  s ← get_db
  let vars : Vars = record {
    subject = p;
    resource_type = resource_type;
    action = action;
    resource = resource;
  }
  pure (decide s.checker.policies vars)

abbrev pub is_effect : Bytes → Bool
is_effect e = bytes_eq e (codes "allow") || bytes_eq e (codes "deny")

-- UpsertPolicy of authz.sql: the name is unique.
unfoldable pub upsert : Policy → List Policy → List Policy
unfolding bytes_eq
upsert p rows =
    if any (λ r. bytes_eq r.name p.name) rows
    then update_where (λ r. bytes_eq r.name p.name) (λ r. p) rows
    else rows ++ p ∷ []

module _ (compile : Bytes → Option Program) (by_name : List Policy → List Policy) where
  -- ListAllPolicies, ListEnabledPolicies
  unfoldable pub list_enabled_policies : List Policy → List Policy
  list_enabled_policies rows = by_name (filter (λ r. r.enabled) rows)

  abbrev pub with_program : Policy → Program → CompiledPolicy
  with_program r program = record {
    name = r.name;
    effect = r.effect;
    resource_type = r.resource_type;
    action = r.action;
    program = program;
  }

  abbrev pub keep : Policy → Option Program → List CompiledPolicy → List CompiledPolicy
  keep r none rest = rest
  keep r (some program) rest = with_program r program ∷ rest

  -- A row whose condition does not compile is passed over.
  unfoldable pub compile_all : List Policy → List CompiledPolicy
  compile_all [] = []
  compile_all (r ∷ rs) = keep r (compile r.condition) (compile_all rs)

  unfoldable pub refresh : Action (Unit {0})
  unfolding list_enabled_policies compile_all
  refresh = do
    attempt
    now ← get_now
    s ← get_db
    put_db (record s {
      checker = record s.checker {
        policies = compile_all (list_enabled_policies s.rows);
        loaded_at = now / 10 ^ 6;
      };
    })

  unfoldable pub list_policies : Option Principal → Action (List Policy)
  unfolding require_admin
  list_policies caller = do
    require_admin caller
    or_internal attempt
    s ← get_db
    pure (by_name s.rows)

  save : Policy → Option Program → Action Policy
  unfolding refresh upsert
  save p none = raise invalid_condition
  save p (some program) = do
    or_internal (do draw; pure tt)
    or_internal attempt
    s ← get_db
    put_db (record s { rows = upsert p s.rows })
    or_internal refresh
    pure p

  unfoldable pub upsert_policy : Option Principal → Policy → Action Policy
  unfolding require_admin save
  upsert_policy caller p = do
    require_admin caller
    if is_blank p.name || not (is_effect p.effect)
        then raise invalid_input
        else save p (compile p.condition)

  unfoldable pub delete_policy : Option Principal → Bytes → Action (Unit {0})
  unfolding require_admin refresh
  delete_policy caller name = do
    require_admin caller
    or_internal attempt
    s ← get_db
    if any (λ r. bytes_eq r.name name) s.rows
        then (do
          put_db (record s { rows = filter (λ r. not (bytes_eq r.name name)) s.rows })
          or_internal refresh)
        else raise policy_not_found
