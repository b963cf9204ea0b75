-- ===== src/Edge/Gzip/Tests.antt =====
-- Runs of the middleware, with a codec that is small enough to compute with: one byte before each
-- piece, and one at the end.
use lynk.Base.{
  ◌≡◌, refl, ap, ◌∙◌, Bytes, codes, List, [], ◌∷◌, ◌++◌, append-nil, Option, none, some, has_prefix,
  bytes_eq,
}
use lynk.Edge.Http.{Headers, put, delete, values}
use lynk.Edge.Gzip.{Call, change, write, flush, Codec, negotiates, gzip}
use lynk.Edge.Gzip.Same.{
  out_of, Packs, begun, written, flushed, IsCodec, IsSame, alone, gzip-IsSame,
}

-- Holds what it is given until Close.
abbrev holding : Codec Bytes
holding = record {
  fresh = [];
  pack = λ d st. (st ++ d, []);
  pack_flush = λ st. (st, []);
  pack_close = λ st. b'Z' ∷ st;
}

abbrev unhold : Bytes → Option Bytes
unhold [] = none
unhold (c ∷ s) = some s

holding-held : {st out inp : Bytes} → Packs holding st out inp → (st ≡ inp) × (out ≡ [])
holding-held begun = (refl, refl)
holding-held (written {st} {out} {inp} d p) =
    (ap (λ l. l ++ d) (holding-held p).0, append-nil out ∙ (holding-held p).1)
holding-held (flushed {st} {out} {inp} p) =
    ((holding-held p).0, append-nil out ∙ (holding-held p).1)

holding-IsCodec : IsCodec holding unhold
holding-IsCodec = record {
  decoded = λ st out inp p. rw ((holding-held p).0, (holding-held p).1) refl;
}

abbrev asks : Headers
asks = (codes "Accept-Encoding", codes "gzip, br") ∷ []

abbrev page : List Call
page =
    change (put (codes "Content-Type") (codes "text/html"))
    ∷ write (codes "<p>")
    ∷ flush
    ∷ write (codes "hello")
    ∷ []

gzip-IsSame_example :
    IsSame unhold (alone (negotiates asks) page []) (gzip holding asks page (out_of [] none []))
gzip-IsSame_example = gzip-IsSame holding unhold holding-IsCodec asks page [] tt

page_runs : (gzip holding asks page (out_of [] none [])).body ≡ codes "Z<p>hello"
unfolding gzip has_prefix put delete values bytes_eq
page_runs = refl

-- A handler that flushes first, to send its headers at once: they go out without an encoding, and
-- what follows is compressed all the same.
abbrev flushes_first : List Call
flushes_first =
    change (put (codes "Content-Type") (codes "text/event-stream"))
    ∷ flush
    ∷ write (codes "data")
    ∷ []

flushes_first_runs :
    ((gzip holding asks flushes_first (out_of [] none [])).body ≡ codes "Zdata")
    × ((gzip holding asks flushes_first (out_of [] none [])).sent
        ≡ some (
          200,
          (codes "Content-Type", codes "text/event-stream")
              ∷ (codes "Vary", codes "Accept-Encoding")
              ∷ [],
        ))
unfolding gzip has_prefix put delete values bytes_eq
flushes_first_runs = (refl, refl)
