-- ===== src/Authz/Tests.antt =====
-- The theorems on the decision engine at concrete inputs.
use mathlib.Core.List.Permᴰ
use lynk.Base.{
  ◌≡◌, refl, Bytes, codes, true, false, List, [], ◌∷◌, Option, none, some, bytes_eq, if◌then◌else◌,
}
use lynk.Effects.{World, err, calm}
use lynk.Effects.Redis.{Cell}
use lynk.Authz.{
  Principal, Policy, Program, CompiledPolicy, Vars, State, truth, applies, decide, upsert_policy,
  delete_policy, list_policies, with_program,
}
use lynk.Authz.Overrides.{verdict, decide-verdict}
use lynk.Authz.Administration.{refusal, require_admin-handlers, upsert_policy-denies}

-- Conditions are `true`, or are about an owner.
abbrev compile_sample : Bytes → Option Program
compile_sample c = if bytes_eq c (codes "true") then some (λ v. truth true) else none

abbrev same_order : List Policy → List Policy
same_order rows = rows

abbrev user : Principal
user = record { user_id = codes "u1"; role = codes "user"; token_type = codes "user" }

abbrev admin : Principal
admin = record { user_id = codes "a1"; role = codes "admin"; token_type = codes "user" }

abbrev request : Vars
request = record {
  subject = user;
  resource_type = codes "note";
  action = codes "delete";
  resource = [];
}

abbrev allow_all : CompiledPolicy
allow_all = record {
  name = codes "allow-all";
  effect = codes "allow";
  resource_type = codes "*";
  action = codes "*";
  program = λ v. truth true;
}

abbrev no_delete : Policy
no_delete = record {
  name = codes "no-delete";
  effect = codes "deny";
  resource_type = codes "note";
  action = codes "delete";
  condition = codes "true";
  enabled = true;
}

abbrev never_delete : CompiledPolicy
never_delete = with_program compile_sample same_order no_delete (λ v. truth true)

decide-verdict_example :
    decide (allow_all ∷ never_delete ∷ []) request ≡ verdict request (allow_all ∷ never_delete ∷ [])
decide-verdict_example = decide-verdict request (allow_all ∷ never_delete ∷ []) refl

denied_run :
    decide (allow_all ∷ never_delete ∷ []) request
    ≡ record { allowed = false; decided_by = codes "no-delete" }
unfolding decide applies bytes_eq
denied_run = refl

abbrev no_cell : Bytes → Option Cell
no_cell k = none

abbrev world : World State
world = record {
  db = record {
    rows = [];
    checker = record { policies = allow_all ∷ []; loaded_at = 0; refreshing = false };
  };
  in_tx = false;
  redis = no_cell;
  now = 5;
  draws = 0;
  faults = [];
  published = [];
  mails = [];
}

require_admin-handlers_example :
    (upsert_policy compile_sample same_order (some user) no_delete world
      ≡ (err (refusal (some user)), world))
    × (delete_policy compile_sample same_order (some user) (codes "x") world
        ≡ (err (refusal (some user)), world))
    × (list_policies compile_sample same_order (some user) world
        ≡ (err (refusal (some user)), world))
unfolding bytes_eq
require_admin-handlers_example =
    require_admin-handlers compile_sample same_order (some user) no_delete (codes "x") world refl

upsert_policy-denies_example :
    (decide
      (upsert_policy compile_sample same_order
        (some admin)
        no_delete
        (calm world)).1.db.checker.policies
      request).allowed
    ≡ false
unfolding bytes_eq applies
upsert_policy-denies_example =
    upsert_policy-denies compile_sample same_order (some admin) no_delete (λ v. truth true) world
      request (λ rows. Permᴰ.refl rows) refl refl refl refl refl refl
