-- ===== src/Platform/Pools/Balance.antt =====
-- That no pool is lost on the way.
use mathlib.Core.List.{Permᴰ}
use mathlib.Core.List.Permᴰ
use lynk.Base.{
  ℕ, ◌≡◌, refl, sym, ap, ◌∙◌, Bytes, Bool, true, false, not, any, ◌&&◌, subst, List, [], ◌∷◌, ◌++◌,
  append_assoc, append-nil, arith, none, some,
}
use lynk.Platform.Pools.{
  PoolConfig, Limits, with_defaults, Driver, Dialled, new_pool, Pools, Connected, open_reads,
  connect, close_pools,
}

-- Some call of newPool fails for this address.
abbrev pub fails : Driver → Limits → Bytes → Bool
fails driver limits url = not (driver.parses url && (driver.opens limits url && driver.answers url))

-- After Connect: some address fails and what was opened on the way is closed again, each pool once, or
-- none fails, nothing was closed, and Close will close exactly what was opened, which is the primary
-- and every replica in their order.
pub data IsBalanced (bad : Bytes → Bool) (c : PoolConfig) (r : Connected) : Type 0 where
  failed :
      r.pools ≡ none
      → any bad (c.write_url ∷ c.read_urls) ≡ true
      → Permᴰ r.closed r.opened
      → IsBalanced bad c r
  kept :
      (p : Pools)
      → r.pools ≡ some p
      → any bad (c.write_url ∷ c.read_urls) ≡ false
      → r.closed ≡ []
      → close_pools p ≡ r.opened
      → r.opened ≡ c.write_url ∷ c.read_urls
      → IsBalanced bad c r

-- The two ends of newPool.
data IsDialled (bad : Bytes → Bool) (url : Bytes) : Dialled → Type 0 where
  refused :
      (opened : List Bytes)
      → bad url ≡ true
      → IsDialled bad url (record { pool = none; opened = opened; closed = opened })
  dialled :
      bad url ≡ false
      → IsDialled bad url (record { pool = some url; opened = url ∷ []; closed = [] })

any_amid :
    (bad : Bytes → Bool) (xs ys : List Bytes) (url : Bytes)
    → bad url ≡ true
    → any bad (xs ++ url ∷ ys) ≡ true
any_amid bad [] ys url h = rw h refl
any_amid bad (x ∷ xs) ys url h = ground (arith, any_amid bad xs ys url h)

any_last :
    (bad : Bytes → Bool) (xs : List Bytes) (url : Bytes)
    → any bad xs ≡ false
    → bad url ≡ false
    → any bad (xs ++ url ∷ []) ≡ false
any_last bad [] url h e = rw e refl
any_last bad (x ∷ xs) url h e = ground (arith, h, e, any_last bad xs url)

module _ (driver : Driver) (limits : Limits) where
  new_pool-IsDialled :
      (url : Bytes) → IsDialled (fails driver limits) url (new_pool driver limits url)
  unfolding new_pool
  new_pool-IsDialled url =
      go (driver.parses url) (driver.opens limits url) (driver.answers url) refl refl refl
    where
      go :
          (parses opens answers : Bool)
          → driver.parses url ≡ parses
          → driver.opens limits url ≡ opens
          → driver.answers url ≡ answers
          → IsDialled (fails driver limits) url (new_pool driver limits url)
      go false opens answers p o a = rw p (refused [] (rw p refl))
      go true false answers p o a = rw (p, o) (refused [] (rw (p, o) refl))
      go true true false p o a = rw (p, o, a) (refused (url ∷ []) (rw (p, o, a) refl))
      go true true true p o a = rw (p, o, a) (dialled (rw (p, o, a) refl))

  module _ (c : PoolConfig) where
    open_reads-IsBalanced :
        (reads urls : List Bytes)
        → reads ++ urls ≡ c.read_urls
        → any (fails driver limits) (c.write_url ∷ reads) ≡ false
        → IsBalanced
            (fails driver limits)
            c
            (open_reads driver limits c.write_url reads (c.write_url ∷ reads) [] urls)
    unfolding open_reads close_pools
    open_reads-IsBalanced reads [] h good =
        let whole = sym (append-nil reads) ∙ h in
        kept _ refl (subst (λ l. any (fails driver limits) (c.write_url ∷ l) ≡ false) whole good)
          refl refl (ap (λ l. c.write_url ∷ l) whole)
    open_reads-IsBalanced reads (url ∷ urls) h good =
        next (new_pool driver limits url) (new_pool-IsDialled url) λ e.
          open_reads-IsBalanced (reads ++ url ∷ []) urls (append_assoc reads (url ∷ []) urls ∙ h)
            (any_last (fails driver limits) (c.write_url ∷ reads) url good e)
      where
        next :
            (d : Dialled)
            → IsDialled (fails driver limits) url d
            → (fails driver limits url ≡ false
                → IsBalanced (fails driver limits) c (
                    open_reads driver limits c.write_url
                      (reads ++ url ∷ [])
                      (c.write_url ∷ (reads ++ url ∷ []))
                      []
                      urls))
            → IsBalanced (fails driver limits) c (elim d.pool [
              | none ↦ record {
                pools = none;
                opened = (c.write_url ∷ reads) ++ d.opened;
                closed = [] ++ (d.closed ++ c.write_url ∷ reads);
              }
              | some read ↦
                  open_reads driver limits c.write_url
                    (reads ++ read ∷ [])
                    ((c.write_url ∷ reads) ++ d.opened)
                    ([] ++ d.closed)
                    urls
            ])
        next _ (refused opened e) rest =
            failed refl
              (subst (λ l. any (fails driver limits) (c.write_url ∷ l) ≡ true) h
                (any_amid (fails driver limits) (c.write_url ∷ reads) urls url e))
              (Permᴰ.append_comm opened (c.write_url ∷ reads))
        next _ (dialled e) rest = rest e

-- Connect opens the primary and every replica, in the configured order, and succeeds when no call of
-- the driver for any of their addresses fails; otherwise it fails, with each pool that was opened on
-- the way closed again, the one that did not answer its ping included: on no path is a pool left open
-- that Close will not close.
pub connect-IsBalanced :
    (driver : Driver) (procs : ℕ) (c : PoolConfig)
    → IsBalanced (fails driver (with_defaults procs c)) c (connect driver procs c)
unfolding connect
connect-IsBalanced driver procs c =
    from (new_pool driver limits c.write_url) (new_pool-IsDialled driver limits c.write_url)
  where
    limits : Limits
    limits = with_defaults procs c

    from :
        (d : Dialled)
        → IsDialled (fails driver (with_defaults procs c)) c.write_url d
        → IsBalanced (fails driver (with_defaults procs c)) c (elim d.pool [
          | none ↦ record { pools = none; opened = d.opened; closed = d.closed }
          | some write ↦
              open_reads driver (with_defaults procs c) write [] d.opened d.closed c.read_urls
        ])
    from _ (refused opened e) =
        failed refl (any_amid (fails driver (with_defaults procs c)) [] c.read_urls c.write_url e)
          (Permᴰ.refl opened)
    from _ (dialled e) =
        open_reads-IsBalanced driver (with_defaults procs c) c [] c.read_urls refl (rw e refl)
