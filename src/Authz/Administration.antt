-- ===== src/Authz/Administration.antt =====
-- The handlers that edit policies (modules/authz/handler.go).
use mathlib.Core.List.{Permᴰ}
use lynk.Base.{
  ◌+◌, ◌/◌, ◌^◌, ◌≡◌, refl, sym, ap, ◌∙◌, inl, inr, Bytes, codes, Bool, true, false, ◌&&◌, ◌||◌,
  List, [], ◌∷◌, ◌++◌, Option, none, some, arith, any, filter, update_where, bytes_eq,
  bytes_eq_refl, if◌then◌else◌, Bool-cases,
}
use lynk.Effects.{
  World, Error, ok, err, calm, attempt, draw, pure, raise, get_db, put_db, get_now, unauthenticated,
  admin_required,
}
use lynk.Authz.{
  Principal, Policy, Program, CompiledPolicy, Vars, State, applies, is_deny, is_blank, is_effect,
  decide, list_enabled_policies, compile_all, with_program, keep, refresh, require_admin, upsert,
  save, upsert_policy, delete_policy, list_policies,
}
use lynk.Authz.Overrides.{denies, denied, any-Perm}

abbrev pub is_admin : Option Principal → Bool
is_admin none = false
is_admin (some p) = bytes_eq p.role (codes "admin") || bytes_eq p.token_type (codes "admin")

abbrev pub refusal : Option Principal → Error
refusal none = unauthenticated
refusal (some p) = admin_required

require_admin-refusal :
    (caller : Option Principal) (w : World State)
    → is_admin caller ≡ false
    → require_admin caller w ≡ (err (refusal caller), w)
unfolding require_admin raise pure
require_admin-refusal none w h = refl
require_admin-refusal (some p) w h = ground (arith, h)

module _ (compile : Bytes → Option Program) (by_name : List Policy → List Policy) where
  -- Only administrators see or edit policies: a caller whose role and token type are both not
  -- `admin`, or no caller at all, gets the same refusal from all three handlers, and nothing is
  -- read, written or reloaded.
  pub require_admin-handlers :
      (caller : Option Principal) (p : Policy) (name : Bytes) (w : World State)
      → is_admin caller ≡ false
      → (upsert_policy compile by_name caller p w ≡ (err (refusal caller), w))
        × (delete_policy compile by_name caller name w ≡ (err (refusal caller), w))
        × (list_policies compile by_name caller w ≡ (err (refusal caller), w))
  unfolding upsert_policy delete_policy list_policies
  require_admin-handlers caller p name w h = (
    rw (require_admin-refusal caller w h),
    rw (require_admin-refusal caller w h),
    rw (require_admin-refusal caller w h),
  )

  -- What a row decides once it is compiled.
  abbrev program_denies : Vars → Policy → Option Program → Bool
  program_denies v r none = false
  program_denies v r (some program) = denies v (with_program compile by_name r program)

  abbrev row_denies : Vars → Policy → Bool
  row_denies v r = program_denies v r (compile r.condition)

  keep-any :
      (v : Vars) (r : Policy) (o : Option Program) (rest : List CompiledPolicy) (b : Bool)
      → any (denies v) rest ≡ b
      → any (denies v) (keep compile by_name r o rest) ≡ (if program_denies v r o then true else b)
  keep-any v r none rest b h = h
  keep-any v r (some program) rest b h =
      ap (λ b. if denies v (with_program compile by_name r program) then true else b) h

  compile_all-any :
      (v : Vars) (rs : List Policy)
      → any (denies v) (compile_all compile by_name rs) ≡ any (row_denies v) rs
  unfolding compile_all
  compile_all-any v [] = refl
  compile_all-any v (r ∷ rs) =
      keep-any v r (compile r.condition) (compile_all compile by_name rs) (any (row_denies v) rs)
        (compile_all-any v rs)

any-filter :
    {A : Type 0} (f keep : A → Bool) (xs : List A)
    → any f (filter keep xs) ≡ any (λ x. keep x && f x) xs
any-filter f keep [] = refl
any-filter f keep (x ∷ xs) = ground (arith, any-filter f keep xs)

any-update_where :
    (f : Policy → Bool) (p : Policy) (rows : List Policy)
    → f p ≡ true
    → any (λ r. bytes_eq r.name p.name) rows ≡ true
    → any f (update_where (λ r. bytes_eq r.name p.name) (λ r. p) rows) ≡ true
any-update_where f p [] h k = cc
any-update_where f p (r ∷ rows) h k = ground (arith, h, k, any-update_where f p rows)

any-append-one :
    {A : Type 0} (f : A → Bool) (p : A) (xs : List A) → f p ≡ true → any f (xs ++ p ∷ []) ≡ true
any-append-one f p [] h = ground (arith, h)
any-append-one f p (x ∷ xs) h = ground (arith, any-append-one f p xs h)

any-upsert :
    (f : Policy → Bool) (p : Policy) (rows : List Policy)
    → f p ≡ true
    → any f (upsert p rows) ≡ true
unfolding upsert
any-upsert f p rows h = elim (Bool-cases (any (λ r. bytes_eq r.name p.name) rows)) [
  | inl old ↦ rw old (any-update_where f p rows h old)
  | inr new ↦ rw new (any-append-one f p rows h)
]

module _ (compile : Bytes → Option Program) (by_name : List Policy → List Policy) where
  -- What a successful upsert leaves behind.
  pub saved : Policy → World State → World State
  saved p w = record (calm w) {
    db = record w.db {
      rows = upsert p w.db.rows;
      checker = record w.db.checker {
        policies =
            compile_all compile by_name
              (list_enabled_policies compile by_name (upsert p w.db.rows));
        loaded_at = w.now / 10 ^ 6;
      };
    };
    draws = w.draws + 1;
  }

  require_admin-ok :
      (caller : Option Principal) (w : World State)
      → is_admin caller ≡ true
      → require_admin caller w ≡ (ok tt, w)
  unfolding require_admin raise pure
  require_admin-ok none w h = cc
  require_admin-ok (some p) w h = ground (arith, h)

  upsert_policy-saved :
      (caller : Option Principal) (p : Policy) (program : Program) (w : World State)
      → is_admin caller ≡ true
      → is_blank p.name ≡ false
      → is_effect p.effect ≡ true
      → compile p.condition ≡ some program
      → upsert_policy compile by_name caller p (calm w) ≡ (ok p, saved p w)
  unfolding upsert_policy save refresh attempt draw pure raise get_db put_db get_now saved
  upsert_policy-saved caller p program w a n e c = rw (require_admin-ok caller (calm w) a, n, e, c)

  -- A deny that is saved denies at once, on this instance: after an administrator has saved an
  -- enabled policy with the effect `deny` whose condition compiles and holds of a request that the
  -- policy is about, that request is denied. (The policy has a name; no call fails; sorting by name
  -- only changes the order of the rows.)
  pub upsert_policy-denies :
      (caller : Option Principal) (p : Policy) (program : Program) (w : World State) (v : Vars)
      → ((rows : List Policy) → Permᴰ rows (by_name rows))
      → is_admin caller ≡ true
      → is_blank p.name ≡ false
      → p.effect ≡ codes "deny"
      → p.enabled ≡ true
      → compile p.condition ≡ some program
      → applies v (with_program compile by_name p program) ≡ true
      → (decide (upsert_policy compile by_name caller p (calm w)).1.db.checker.policies v).allowed
        ≡ false
  unfolding saved decide list_enabled_policies is_deny
  upsert_policy-denies caller p program w v perm a n e on c t =
      rw (upsert_policy-saved caller p program w a n (rw e refl) c) (
        denied v []
          (compile_all compile by_name (by_name (filter (λ r. r.enabled) (upsert p w.db.rows))))
          found)
    where
      found :
          any
            (denies v)
            (compile_all compile by_name (by_name (filter (λ r. r.enabled) (upsert p w.db.rows))))
          ≡ true
      found =
          compile_all-any compile by_name v (by_name (filter (λ r. r.enabled) (upsert p w.db.rows)))
          ∙ sym (
              any-Perm (row_denies compile by_name v) (filter (λ r. r.enabled) (upsert p w.db.rows))
                _ (perm _))
          ∙ any-filter (row_denies compile by_name v) (λ r. r.enabled) (upsert p w.db.rows)
          ∙ any-upsert (λ r. r.enabled && row_denies compile by_name v r) p w.db.rows
              (rw (on, c, t, e, bytes_eq_refl (codes "deny")))
