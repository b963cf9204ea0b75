-- ===== src/Platform/Shutdown/Hooks.antt =====
-- That the hooks are run in the reverse order, each one once.
use mathlib.Core.List.{reverse-append}
use lynk.Base.{
  ℕ, zero, suc, ◌<◌, ◌≤◌, ◌≡◌, refl, sym, ap, ◌∙◌, arith, Bytes, Bool, List, [], ◌∷◌, ◌++◌, map,
  reverse, some, length, get_elem?, take,
}
use lynk.Platform.Shutdown.{Hook, Manager, run_below, run_hook, run_hooks}

abbrev names : List (Bytes × Bool) → List Bytes
names log = map (λ e. e.0) log

module _ {S : Type 0} where
  -- The hooks below an index, and that one.
  data IsNext (xs : List (Hook S)) (i : ℕ) : Type 0 where
    next :
        (h : Hook S) → get_elem? xs i ≡ some h → take (suc i) xs ≡ take i xs ++ h ∷ [] → IsNext xs i

  IsNext-below : (xs : List (Hook S)) (i : ℕ) → i < length xs → IsNext xs i
  IsNext-below [] i h = absurd (omega (arith, h))
  IsNext-below (x ∷ xs) zero h = next x refl refl
  IsNext-below (x ∷ xs) (suc i) h = step (IsNext-below xs i (omega (arith, h)))
    where
      step : IsNext xs i → IsNext (x ∷ xs) (suc i)
      step (next y found split) = next y found (ap (λ l. x ∷ l) split)

  map-append_names :
      (xs : List (Hook S)) (h : Hook S)
      → map (λ k. k.name) (xs ++ h ∷ []) ≡ map (λ k. k.name) xs ++ h.name ∷ []
  map-append_names [] h = refl
  map-append_names (x ∷ xs) h = ap (λ l. x.name ∷ l) (map-append_names xs h)

  hook_names : List (Hook S) → List Bytes
  hook_names hs = map (λ h. h.name) hs

  split_names :
      (xs : List (Hook S)) (i : ℕ) (h : Hook S)
      → take (suc i) xs ≡ take i xs ++ h ∷ []
      → reverse (hook_names (take (suc i) xs)) ≡ h.name ∷ reverse (hook_names (take i xs))
  unfolding hook_names
  split_names xs i h split =
      ap (λ l. reverse (map (λ k. k.name) l)) split
      ∙ ap reverse (map-append_names (take i xs) h)
      ∙ reverse-append (map (λ k. k.name) (take i xs)) (h.name ∷ [])

  names-run_below :
      (xs : List (Hook S)) (n : ℕ) (s : S)
      → n ≤ length xs
      → names (run_below xs n s).0 ≡ reverse (hook_names (take n xs))
  unfolding run_below hook_names
  names-run_below xs zero s h = refl
  names-run_below xs (suc i) s h = elim (IsNext-below xs i (omega (arith, h))) [
    | next y found split ↦
        ap (λ o. names (run_hook o (run_below xs i) s).0) found
        ∙ ap (λ l. y.name ∷ l) (names-run_below xs i (y.run s).1 (omega (arith, h)))
        ∙ sym (split_names xs i y split)
  ]

  take-length : (xs : List (Hook S)) → take (length xs) xs ≡ xs
  take-length [] = refl
  take-length (x ∷ xs) = ap (λ l. x ∷ l) (take-length xs)

  -- Every hook runs exactly once, in the reverse order of the registrations, whatever the hooks do to
  -- the state of the process and however many of them fail.
  pub run_hooks_names :
      (m : Manager S) (s : S)
      → map (λ e. e.0) (run_hooks m s).0 ≡ reverse (map (λ h. h.name) m.hooks)
  unfolding run_hooks hook_names
  run_hooks_names m s =
      names-run_below m.hooks (length m.hooks) s (omega arith)
      ∙ ap (λ l. reverse (map (λ h. h.name) l)) (take-length m.hooks)
