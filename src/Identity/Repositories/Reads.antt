-- ===== src/Identity/Repositories/Reads.antt =====
-- What the reads of the repositories return when no call fails.
use lynk.Base.{◌≡◌, Bytes, [], none, some, bytes_eq, find?}
use lynk.Effects.{World, ok, err, user_not_found, calm, attempt, raise, pure, get_db}
use lynk.Identity.Database.{Db, UserRow}
use lynk.Identity.Domain.{User, RefreshToken, new_user_id}
use lynk.Identity.Outside.{Outside, new_email}
use lynk.Identity.Repositories.{
  user_from_row, get_user_by_email, get_user_by_id, get_session_by_hash,
}

-- A row in good shape: it passes the checks that reading it makes.
pub record IsSound (o : Outside) (row : UserRow) : Type 0 where
  pub id_shape : new_user_id row.id ≡ ok row.id
  pub id_scans : o.scan_uuid row.id ≡ some row.id
  pub address : new_email o row.email ≡ ok row.email

abbrev pub user_of : UserRow → User
user_of r = record {
  id = r.id;
  email = r.email;
  password_hash = r.password_hash;
  full_name = r.full_name;
  role = r.role;
  status = r.status;
  version = r.version;
  created_at = r.created_at;
  updated_at = r.updated_at;
  events = [];
}

module _ (o : Outside) where
  user_from_row_sound :
      (row : UserRow) (w : World Db) → IsSound o row → user_from_row o row w ≡ (ok (user_of row), w)
  unfolding pure raise
  user_from_row_sound row w s = rw (s.id_shape, s.address)

  pub get_user_by_email_found :
      (email : Bytes) (row : UserRow) (w : World Db)
      → find? (λ r. bytes_eq r.email email) w.db.users ≡ some row
      → IsSound o row
      → get_user_by_email o email (calm w) ≡ (ok (user_of row), calm w)
  unfolding get_user_by_email attempt get_db pure raise
  get_user_by_email_found email row w f s = rw f (user_from_row_sound row (calm w) s)

  pub get_user_by_email_missing :
      (email : Bytes) (w : World Db)
      → find? (λ r. bytes_eq r.email email) w.db.users ≡ none
      → get_user_by_email o email (calm w) ≡ (err user_not_found, calm w)
  unfolding get_user_by_email attempt get_db pure raise
  get_user_by_email_missing email w f = rw f

  pub get_user_by_id_found :
      (id : Bytes) (row : UserRow) (w : World Db)
      → o.scan_uuid id ≡ some id
      → find? (λ r. bytes_eq r.id id) w.db.users ≡ some row
      → IsSound o row
      → get_user_by_id o id (calm w) ≡ (ok (user_of row), calm w)
  unfolding get_user_by_id attempt get_db pure raise
  get_user_by_id_found id row w c f s = rw (c, f) (user_from_row_sound row (calm w) s)

  pub get_session_by_hash_found :
      (hash : Bytes) (s : RefreshToken) (w : World Db)
      → find? (λ s. bytes_eq s.token_hash hash) w.db.sessions ≡ some s
      → get_session_by_hash o hash (calm w) ≡ (ok s, calm w)
  unfolding get_session_by_hash attempt get_db pure raise
  get_session_by_hash_found hash s w f = rw f
