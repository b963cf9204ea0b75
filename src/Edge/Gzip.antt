-- ===== src/Edge/Gzip.antt =====
-- Compression of responses (services/gateway/internal/edge/gzip.go), on a response writer as net/http
-- has it: the first final status that is set sends the headers as they are then. What is left out are
-- informational responses themselves, HEAD, and the sniffing of a content type. The pool of writers
-- only saves allocations.
pub mod Same
mod Tests
use lynk.Base.{
  ℕ, Bytes, codes, Bool, true, false, not, ◌&&◌, ◌||◌, List, [], ◌∷◌, ◌++◌, Option, none, some, ltb,
  ◌==◌, has_prefix, any, if◌then◌else◌,
}
use lynk.Edge.Http.{Headers, header, values, delete, put, add}

-- What a handler does with its response writer.
pub data Call : Type 0 where
  change : (Headers → Headers) → Call
  write_header : ℕ → Call
  write : Bytes → Call
  flush : Call

-- http.ResponseWriter: the headers as they stand, the status and the headers that were sent, and the
-- body.
pub record Out : Type 0 where
  pub headers : Headers
  pub sent : Option (ℕ × Headers)
  pub body : Bytes

abbrev is_informational : ℕ → Bool
is_informational code = not (ltb code 100) && ltb code 200 && not (code == 101)

-- Statuses whose responses have a body.
abbrev pub has_body : ℕ → Bool
has_body code = not (ltb code 200) && not (code == 204) && not (code == 304)

unfoldable pub send_header : ℕ → Option (ℕ × Headers) → Out → Out
send_header code none out =
    if is_informational code then out else record out { sent = some (code, out.headers) }
send_header code (some s) out = out

abbrev pub out_write_header : ℕ → Out → Out
out_write_header code out = send_header code out.sent out

unfoldable pub append_body : Bytes → Option (ℕ × Headers) → Out → Out
append_body data_sent none out = record out {
  sent = some (200, out.headers);
  body = out.body ++ data_sent;
}
append_body data_sent (some (code, h)) out =
    if has_body code then record out { body = out.body ++ data_sent } else out

abbrev pub out_write : Bytes → Out → Out
out_write data_sent out = append_body data_sent out.sent out

abbrev pub out_change : (Headers → Headers) → Out → Out
out_change f out = record out { headers = f out.headers }

unfoldable pub plain_call : Call → Out → Out
unfolding send_header append_body
plain_call (change f) out = out_change f out
plain_call (write_header code) out = out_write_header code out
plain_call (write data_sent) out = out_write data_sent out
plain_call flush out = out_write_header 200 out

unfoldable pub plain : List Call → Out → Out
unfolding plain_call
plain [] out = out
plain (c ∷ cs) out = plain cs (plain_call c out)

-- A handler that has sent nothing sends 200 when it returns.
unfoldable pub finish : Out → Out
unfolding send_header
finish out = out_write_header 200 out

-- gzip.Writer: what its calls hand on to the writer below it.
pub record Codec (S : Type 0) : Type 0 where
  pub fresh : S
  pub pack : Bytes → S → S × Bytes
  pub pack_flush : S → S × Bytes
  pub pack_close : S → Bytes

abbrev pub compressible_types : List Bytes
compressible_types =
    codes "application/json"
    ∷ codes "application/javascript"
    ∷ codes "application/xml"
    ∷ codes "image/svg+xml"
    ∷ codes "text/"
    ∷ []

unfoldable pub is_compressible : Bytes → Bool
unfolding has_prefix
is_compressible content_type = any (λ prefix. has_prefix prefix content_type) compressible_types

abbrev is_blank : Bytes → Bool
is_blank [] = true
is_blank (c ∷ s) = false

-- Whether headers let the body be compressed.
unfoldable pub eligible : Headers → Bool
unfolding values is_compressible
eligible h =
    is_blank (header (codes "Content-Encoding") h)
    && is_compressible (header (codes "Content-Type") h)

unfoldable pub packed : Headers → Headers
unfolding put delete
packed h = delete (codes "Content-Length") (put (codes "Content-Encoding") (codes "gzip") h)

-- `strings.Contains`, with what is looked for first.
unfoldable pub contains : Bytes → Bytes → Bool
unfolding has_prefix
contains sub [] = has_prefix sub []
contains sub (c ∷ s) = has_prefix sub (c ∷ s) || contains sub s

abbrev pub negotiates : Headers → Bool
negotiates request =
    contains (codes "gzip") (header (codes "Accept-Encoding") request)
    && not (has_prefix (codes "application/grpc-web") (header (codes "Content-Type") request))

-- gzipResponseWriter
pub record Wrapped (S : Type 0) : Type 0 where
  pub out : Out
  pub gz : Option S
  pub wrote_header : Bool

module _ {S : Type 0} (k : Codec S) where
  -- The first WriteHeader decides.
  unfoldable pub decide_packing : Bool → ℕ → Wrapped S → Wrapped S
  unfolding packed send_header
  decide_packing true code w = record w {
    out = out_write_header code (out_change packed w.out);
    gz = some k.fresh;
    wrote_header = true;
  }
  decide_packing false code w = record w { out = out_write_header code w.out; wrote_header = true }

  unfoldable pub wrapped_write_header : ℕ → Bool → Wrapped S → Wrapped S
  unfolding decide_packing eligible
  wrapped_write_header code true w = record w { out = out_write_header code w.out }
  wrapped_write_header code false w = decide_packing (eligible w.out.headers) code w

  unfoldable pub through : Bytes → Option S → Wrapped S → Wrapped S
  unfolding append_body
  through data_sent none w = record w { out = out_write data_sent w.out }
  through data_sent (some st) w = record w {
    out = out_write (k.pack data_sent st).1 w.out;
    gz = some (k.pack data_sent st).0;
  }

  abbrev with_header : Bool → Wrapped S → Wrapped S
  with_header true w = w
  with_header false w = wrapped_write_header 200 false w

  unfoldable pub wrapped_write : Bytes → Wrapped S → Wrapped S
  unfolding wrapped_write_header through
  wrapped_write data_sent w =
      let opened = with_header w.wrote_header w in through data_sent opened.gz opened

  unfoldable pub wrapped_flush : Option S → Wrapped S → Wrapped S
  unfolding append_body send_header
  wrapped_flush none w = record w { out = out_write_header 200 w.out }
  wrapped_flush (some st) w = record w {
    out = out_write_header 200 (out_write (k.pack_flush st).1 w.out);
    gz = some (k.pack_flush st).0;
  }

  unfoldable pub wrapped_call : Call → Wrapped S → Wrapped S
  unfolding wrapped_write wrapped_flush
  wrapped_call (change f) w = record w { out = out_change f w.out }
  wrapped_call (write_header code) w = wrapped_write_header code w.wrote_header w
  wrapped_call (write data_sent) w = wrapped_write data_sent w
  wrapped_call flush w = wrapped_flush w.gz w

  unfoldable pub wrapped : List Call → Wrapped S → Wrapped S
  unfolding wrapped_call
  wrapped [] w = w
  wrapped (c ∷ cs) w = wrapped cs (wrapped_call c w)

  -- `close`: what the client has got when the deferred call is done.
  unfoldable pub close : Option S → Out → Out
  unfolding append_body
  close none out = out
  close (some st) out = out_write (k.pack_close st) out

  abbrev pub wrap_writer : Out → Wrapped S
  wrap_writer out = record {
    out = out_change (add (codes "Vary") (codes "Accept-Encoding")) out;
    gz = none;
    wrote_header = false;
  }

  abbrev pub unwrap : Wrapped S → Out
  unwrap w = finish (close w.gz w.out)

  -- The response of a handler that makes these calls.
  unfoldable pub gzip : Headers → List Call → Out → Out
  unfolding contains wrapped close finish plain values
  gzip request calls out =
      if negotiates request
      then unwrap (wrapped calls (wrap_writer out))
      else finish (plain calls out)
