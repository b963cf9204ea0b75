-- ===== src/Identity/ApiKeys/Revocation/Tests.antt =====
-- The theorem on revoked API keys at a concrete input.
use lynk.Base.{◌≡◌, refl, inl, codes, [], ◌∷◌, none, arith, bytes_eq, has_prefix}
use lynk.Effects.{World, ok, err, calm, api_key_not_found}
use lynk.Effects.Redis.{read}
use lynk.Identity.ApiKeys.{validate, revoke}
use lynk.Identity.ApiKeys.Revocation.{IsServed, validate-revoke}
use lynk.Identity.Database.{Db}
use lynk.Identity.Domain.{ApiKey}
use lynk.Identity.Samples.{ann-IsSound, sample, lifetimes, ann, db, id_of, world}

abbrev key : ApiKey
key = record {
  id = id_of 7;
  user_id = id_of 8;
  name = codes "ci";
  key_hash = codes "lynk_k1";
  prefix = codes "lynk_k1";
  created_at = 0;
  revoked_at = none;
}

abbrev with_key : World Db
with_key = record world { db = record db { api_keys = key ∷ [] } }

key-IsServed : IsServed sample lifetimes with_key (codes "lynk_k1") key ann
unfolding read bytes_eq has_prefix
key-IsServed = record {
  named = refl;
  missed = refl;
  found = refl;
  live = refl;
  owner = refl;
  owner_id = refl;
  sound = ann-IsSound;
  may_sign_in = refl;
}

validate-revoke_example :
    let first = validate sample lifetimes (codes "lynk_k1") (calm with_key) in
    let second =
      revoke sample lifetimes (id_of 8) (id_of 7) (record (calm first.1) { now = 200 }) in
    let x = record (calm second.1) { now = 300 } in
    (first.0 ≡ ok (id_of 8, codes "user"))
    × (validate sample lifetimes (codes "lynk_k1") x ≡ (err api_key_not_found, x))
validate-revoke_example =
    validate-revoke sample lifetimes with_key (codes "lynk_k1") (id_of 7) key ann 200 300 refl
      key-IsServed refl refl (omega arith) (inl refl)
