-- ===== src/Notes/Versions.antt =====
-- Optimistic locking (modules/example): no update is lost.
use lynk.Base.{
  ℕ, ◌+◌, ◌≡◌, ◌≢◌, refl, sym, ◌∙◌, subst, Bytes, true, false, List, [], ◌∷◌, ◌++◌, none, some,
  arith, any, find?, update_where, ==_iff, bytes_eq_iff,
}
use lynk.Effects.{
  World, ok, err, calm, concurrent_update, pure, raise, lift, get_now, get_db, put_db, attempt,
  draw, within_transaction, ◌>>=◌,
}
use lynk.Effects.Rules.{within_transaction_ok}
use lynk.Notes.Database.{
  Note, Row, Db, note_updated, new_note_id, new_title, note_from_row, update, bump_version, is_note,
  is_version, written, get, save, from_found,
}
use lynk.Notes.UseCases.{Outside, update_note, rewrite, publish}

abbrev note_of : Row → Note
note_of r = record {
  id = r.id;
  owner_id = r.owner_id;
  title = r.title;
  body = r.body;
  version = r.version;
  created_at = r.created_at;
  updated_at = r.updated_at;
  events = [];
}

found_id :
    (id owner_id : Bytes) (rows : List Row) (r : Row)
    → find? (is_note id owner_id) rows ≡ some r
    → (r.id ≡ id) × (r.owner_id ≡ owner_id)
found_id id owner_id [] r h = cc
found_id id owner_id (s ∷ rows) r h =
    ground
      (arith, found_id id owner_id rows r, bytes_eq_iff s.id id, bytes_eq_iff s.owner_id owner_id)

found_own :
    (id owner_id : Bytes) (rows : List Row) (r : Row)
    → find? (is_note id owner_id) rows ≡ some r
    → find? (is_note r.id r.owner_id) rows ≡ some r
found_own id owner_id rows r h =
    let (i, j) = found_id id owner_id rows r h in
    subst (λ x. find? (is_note x r.owner_id) rows ≡ some r) (sym i)
      (subst (λ x. find? (is_note id x) rows ≡ some r) (sym j) h)

-- The row that a guarded update of `r` rewrites is there.
found_version :
    (rows : List Row) (n : Note) (r : Row)
    → find? (is_note n.id n.owner_id) rows ≡ some r
    → r.version ≡ n.version
    → any (is_version n) rows ≡ true
found_version [] n r h v = cc
found_version (s ∷ rows) n r h v = ground (arith, found_version rows n r)

found_written :
    (rows : List Row) (n : Note) (r : Row)
    → find? (is_note n.id n.owner_id) rows ≡ some r
    → r.version ≡ n.version
    → find? (is_note n.id n.owner_id) (update_where (is_version n) (written n) rows)
      ≡ some (written n r)
found_written [] n r h v = cc
found_written (s ∷ rows) n r h v = ground (arith, found_written rows n r)

module _ (o : Outside) where
  -- A note that can be updated in `w`, and a title in its trimmed form.
  pub record IsCurrent (w : World Db) (owner_id id title : Bytes) (version : ℕ) (r : Row)
      : Type 0 where
    pub found : find? (is_note id owner_id) w.db.notes ≡ some r
    pub current : r.version ≡ version
    pub id_shape : new_note_id id ≡ ok id
    pub id_scans : o.scan_uuid id ≡ some id
    pub row_title : new_title r.title ≡ ok r.title
    pub title_shape : new_title title ≡ ok title
    pub event_scans : o.scan_uuid (o.uuid w.now w.draws) ≡ some (o.uuid w.now w.draws)

  get_lem :
      (w : World Db) (owner_id id : Bytes) (r : Row)
      → find? (is_note id owner_id) w.db.notes ≡ some r
      → new_note_id id ≡ ok id
      → o.scan_uuid id ≡ some id
      → new_title r.title ≡ ok r.title
      → get o.scan_uuid owner_id id (calm w) ≡ (ok (note_of r), calm w)
  unfolding get from_found note_from_row attempt get_db pure raise
  get_lem w owner_id id r f s c t =
      let same = (found_id id owner_id w.db.notes r f).0 in rw (c, f, same, s, t)

  -- The note as the transaction writes it.
  abbrev pub rewritten : Bytes → Bytes → World Db → Row → Note
  rewritten title body w r = record (note_of r) { title = title; body = body; updated_at = w.now }

  -- What an update leaves behind: the row under its new version, and one event that names it.
  pub updated : Bytes → Bytes → World Db → Row → World Db
  updated title body w r = record (calm w) {
    db = record {
      notes =
          update_where (is_version (rewritten title body w r)) (written (rewritten title body w r))
            w.db.notes;
      outbox =
          w.db.outbox
          ++ record {
            id = o.uuid w.now w.draws;
            event = note_updated r.id title body (r.version + 1) w.now;
            occurred_at = w.now;
            published_at = none;
          }
            ∷ [];
    };
    draws = w.draws + 1;
  }

  rewrite_lem :
      (w : World Db) (title body : Bytes) (r : Row)
      → find? (is_note r.id r.owner_id) w.db.notes ≡ some r
      → o.scan_uuid r.id ≡ some r.id
      → o.scan_uuid (o.uuid w.now w.draws) ≡ some (o.uuid w.now w.draws)
      → rewrite o title body r.version (note_of r) (calm w) ≡ (
        ok (record (rewritten title body w r) { version = r.version + 1 }),
        updated title body w r,
      )
  unfolding rewrite save publish update bump_version attempt draw get_now get_db put_db pure raise
      updated
  rewrite_lem w title body r f c e = rw (
    (==_iff r.version r.version).1 refl,
    c,
    found_version w.db.notes (rewritten title body w r) r f refl,
    e,
  )

  inside_ok :
      (w : World Db) (owner_id id title body : Bytes) (version : ℕ) (r : Row)
      → IsCurrent w owner_id id title version r
      → (get o.scan_uuid owner_id id >>= rewrite o title body version)
          (record (calm w) { in_tx = true })
        ≡ (
          ok (record (rewritten title body w r) { version = r.version + 1 }),
          calm (updated title body (record w { in_tx = true }) r),
        )
  unfolding updated
  inside_ok w owner_id id title body version r c =
      let v = record w { in_tx = true } in
      let (i, j) = found_id id owner_id w.db.notes r c.found in
      rw (get_lem v owner_id id r c.found c.id_shape c.id_scans c.row_title, sym c.current)
        (rewrite_lem v title body r (found_own id owner_id w.db.notes r c.found)
          (subst (λ x. o.scan_uuid x ≡ some x) (sym i) c.id_scans) c.event_scans)

  pub update_note_lem :
      (w : World Db) (owner_id id title body : Bytes) (version : ℕ) (r : Row)
      → w.in_tx ≡ false
      → IsCurrent w owner_id id title version r
      → update_note o owner_id id title body version (calm w)
        ≡ (ok (record (rewritten title body w r) { version = version + 1 }), updated title body w r)
  unfolding update_note lift updated
  update_note_lem w owner_id id title body version r closed c =
      rw (c.id_shape, c.title_shape)
        (within_transaction_ok (get o.scan_uuid owner_id id >>= rewrite o title body version) w
            (updated title body (record w { in_tx = true }) r)
            (record (rewritten title body w r) { version = r.version + 1 }) closed
            (inside_ok w owner_id id title body version r c)
          ∙ rw (closed, c.current))

  stale-rewrite :
      (w : World Db) (title body : Bytes) (version : ℕ) (n : Note)
      → n.version ≢ version
      → rewrite o title body version n w ≡ (err concurrent_update, w)
  unfolding rewrite raise
  stale-rewrite w title body version n h = ground (arith, h)

  -- A version that the note no longer has.
  stale_update_note :
      (w : World Db) (owner_id id title body : Bytes) (version : ℕ) (r : Row)
      → w.in_tx ≡ false
      → find? (is_note id owner_id) w.db.notes ≡ some r
      → r.version ≢ version
      → new_note_id id ≡ ok id
      → o.scan_uuid id ≡ some id
      → new_title r.title ≡ ok r.title
      → new_title title ≡ ok title
      → update_note o owner_id id title body version (calm w) ≡ (err concurrent_update, calm w)
  unfolding update_note lift within_transaction attempt
  stale_update_note w owner_id id title body version r closed f old s c t t' =
      let v = record w { in_tx = true } in
      rw (
        s,
        t',
        closed,
        get_lem v owner_id id r f s c t,
        stale-rewrite (calm v) title body version (note_of r) old,
      )

  -- No update is lost: when two callers present the same version of a note and the first succeeds,
  -- the second, at whatever time, gets the error of a concurrent update, and nothing of what the
  -- first wrote has changed. (No call fails; both titles are in their trimmed form.)
  pub update_note_once :
      (w : World Db) (owner_id id title body title' body' : Bytes) (version later : ℕ) (r : Row)
      → w.in_tx ≡ false
      → IsCurrent w owner_id id title version r
      → new_title title' ≡ ok title'
      → let v = record (calm (update_note o owner_id id title body version (calm w)).1) {
        now = later;
      } in
        update_note o owner_id id title' body' version v ≡ (err concurrent_update, v)
  unfolding updated
  update_note_once w owner_id id title body title' body' version later r closed c t' =
      let (i, j) = found_id id owner_id w.db.notes r c.found in
      rw (update_note_lem w owner_id id title body version r closed c) (
        stale_update_note (record (updated title body w r) { now = later }) owner_id id title' body'
          version (written (rewritten title body w r) r) closed
          (subst
            (λ x.
              find? (is_note x owner_id) (updated title body w r).db.notes
              ≡ some (written (rewritten title body w r) r))
            i
            (subst
              (λ x.
                find? (is_note r.id x) (updated title body w r).db.notes
                ≡ some (written (rewritten title body w r) r))
              j
              (found_written w.db.notes (rewritten title body w r) r
                (found_own id owner_id w.db.notes r c.found) refl)))
          (λ e. omega (arith, e, c.current)) c.id_shape c.id_scans c.title_shape t')
