-- ===== src/Authz/Overrides.antt =====
-- What the engine decides (modules/authz/checker.go), against its rule: a deny overrides.
use mathlib.Core.List.{Permᴰ}
use lynk.Base.{
  ◌≡◌, refl, sym, ap, ap₂, ◌∙◌, Bytes, Bool, true, false, not, ◌&&◌, List, [], ◌∷◌, Option, none,
  some, arith, any, find?,
}
use lynk.Authz.{CompiledPolicy, Vars, Decision, applies, is_deny, is_blank, decide_from, decide}

abbrev pub denies : Vars → CompiledPolicy → Bool
denies v p = applies v p && is_deny p

abbrev default_deny : Decision
default_deny = record { allowed = false; decided_by = [] }

abbrev allowed_by : Option CompiledPolicy → Decision
allowed_by none = default_deny
allowed_by (some p) = record { allowed = true; decided_by = p.name }

abbrev unless_denied : Option CompiledPolicy → Decision → Decision
unless_denied none d = d
unless_denied (some p) d = record { allowed = false; decided_by = p.name }

-- The rule: the first policy that denies, or else the first that applies, or else nobody.
abbrev pub verdict : Vars → List CompiledPolicy → Decision
verdict v ps = unless_denied (find? (denies v) ps) (allowed_by (find? (applies v) ps))

decide_from-named :
    (v : Vars) (name : Bytes) (ps : List CompiledPolicy)
    → is_blank name ≡ false
    → decide_from v name ps
      ≡ unless_denied (find? (denies v) ps) (record { allowed = true; decided_by = name })
unfolding decide_from
decide_from-named v name [] h = ground (arith, h)
decide_from-named v name (p ∷ ps) h = ground (arith, h, decide_from-named v name ps h)

decide_from-verdict :
    (v : Vars) (ps : List CompiledPolicy)
    → any (λ p. is_blank p.name) ps ≡ false
    → decide_from v [] ps ≡ verdict v ps
unfolding decide_from
decide_from-verdict v [] h = refl
decide_from-verdict v (p ∷ ps) h =
    ground (arith, h, decide_from-verdict v ps, decide_from-named v p.name ps)

-- Deny overrides: the decision is that of the first policy, in the order of the set, that applies
-- and denies; if there is none, it is to allow, by the first policy that applies; and if none
-- applies, it is to deny, by no policy. (No policy has an empty name.)
pub decide-verdict :
    (v : Vars) (ps : List CompiledPolicy)
    → any (λ p. is_blank p.name) ps ≡ false
    → decide ps v ≡ verdict v ps
unfolding decide
decide-verdict v ps h = decide_from-verdict v ps h

-- One applying deny is enough, wherever it stands and whatever the policies are called.
pub denied :
    (v : Vars) (name : Bytes) (ps : List CompiledPolicy)
    → any (denies v) ps ≡ true
    → (decide_from v name ps).allowed ≡ false
unfolding decide_from
denied v name [] h = cc
denied v name (p ∷ ps) h = ground (arith, h, denied v name ps, denied v p.name ps)

abbrev present : Option CompiledPolicy → Bool
present none = false
present (some p) = true

find?-any : (f : CompiledPolicy → Bool) (ps : List CompiledPolicy) → present (find? f ps) ≡ any f ps
find?-any f [] = refl
find?-any f (p ∷ ps) = ground (arith, find?-any f ps)

rule-allowed :
    (d a : Option CompiledPolicy)
    → (unless_denied d (allowed_by a)).allowed ≡ (not (present d) && present a)
rule-allowed none none = refl
rule-allowed none (some p) = refl
rule-allowed (some q) a = refl

verdict-allowed :
    (v : Vars) (ps : List CompiledPolicy)
    → (verdict v ps).allowed ≡ (not (any (denies v) ps) && any (applies v) ps)
verdict-allowed v ps =
    rule-allowed (find? (denies v) ps) (find? (applies v) ps)
    ∙ ap₂ (λ a b. not a && b) (find?-any (denies v) ps) (find?-any (applies v) ps)

pub any-Perm : {A : Type 0} (f : A → Bool) (xs ys : List A) → Permᴰ xs ys → any f xs ≡ any f ys
any-Perm f _ _ Permᴰ.nil = refl
any-Perm f _ _ (Permᴰ.cons {a} {b} {l₁} {l₂} e p) = ground (arith, e, any-Perm f l₁ l₂ p)
any-Perm f _ _ (Permᴰ.swap {a} {b} {a'} {b'} {l} e₁ e₂) = ground (arith, e₁, e₂)
any-Perm f _ _ (Permᴰ.trans {l₁} {l₂} {l₃} p q) = any-Perm f l₁ l₂ p ∙ any-Perm f l₂ l₃ q

-- Whether a request is allowed does not depend on the order of the policies. (No policy has an
-- empty name.)
pub decide-Perm :
    (v : Vars) (ps qs : List CompiledPolicy)
    → any (λ p. is_blank p.name) ps ≡ false
    → Permᴰ ps qs
    → (decide ps v).allowed ≡ (decide qs v).allowed
decide-Perm v ps qs named p =
    ap (λ d. d.allowed) (decide-verdict v ps named)
    ∙ verdict-allowed v ps
    ∙ ap₂ (λ a b. not a && b) (any-Perm (denies v) ps qs p) (any-Perm (applies v) ps qs p)
    ∙ sym (verdict-allowed v qs)
    ∙ sym (
        ap (λ d. d.allowed)
          (decide-verdict v qs (sym (any-Perm (λ p. is_blank p.name) ps qs p) ∙ named)))
