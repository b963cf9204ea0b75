-- ===== src/Edge/Authentication/Tests.antt =====
-- The theorems on the authenticator at concrete inputs.
use mathlib.Core.List.{Memᴰ}
use lynk.Base.{bytes_eq_refl, if◌then◌else◌, ◌≡◌, refl, codes, true, [], ◌∷◌, none, some, bytes_eq}
use lynk.Effects.{World, ok, attempt}
use lynk.Effects.Redis.{text, read}
use lynk.Edge.Bloom.{new_filter, in_filter, listen, blacklist_key}
use lynk.Edge.Bloom.Membership.{new_filter-IsFull, listen-in_filter}
use lynk.Edge.Http.{Gate}
use lynk.Edge.Authentication.{consult}
use lynk.Edge.Samples.{gateway}

abbrev logged_out : World Gate
logged_out = record gateway {
  db = record gateway.db { filter = listen (codes "9f" ∷ []) new_filter };
  redis = λ k.
      if bytes_eq k (blacklist_key (codes "9f"))
      then some (record { value = text (codes "1"); expires_at = none })
      else none;
}

in_filter_now : in_filter (codes "9f") logged_out.db.filter ≡ true
in_filter_now =
    listen-in_filter (codes "9f") (codes "9f" ∷ []) new_filter new_filter-IsFull (Memᴰ.head refl)

gone : consult (codes "9f") logged_out ≡ (ok true, logged_out)
unfolding consult attempt read
gone = rw (in_filter_now, bytes_eq_refl (blacklist_key (codes "9f")))
