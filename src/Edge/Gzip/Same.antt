-- ===== src/Edge/Gzip/Same.antt =====
-- That a client reads the same response, compressed or not.
use lynk.Base.{
  ℕ, ◌≡◌, refl, ◌∙◌, Bytes, codes, Bool, true, false, List, [], ◌∷◌, ◌++◌, Option, none, some,
  if◌then◌else◌, bytes_eq,
}
use lynk.Edge.Http.{Headers, add, values, put}
use lynk.Edge.Http.Values.{values-delete, values-put}
use lynk.Edge.Gzip.{
  Call, change, write_header, write, flush, Out, is_informational, has_body, send_header,
  append_body, plain_call, plain, finish, Codec, eligible, packed, Wrapped, decide_packing,
  wrapped_write_header, through, wrapped_write, wrapped_flush, wrapped_call, wrapped, close,
  negotiates, wrap_writer, unwrap, gzip,
}

abbrev pub out_of : Headers → Option (ℕ × Headers) → Bytes → Out
out_of headers sent body = record { headers = headers; sent = sent; body = body }

module _ {S : Type 0} (k : Codec S) where
  -- What a writer has handed on, and what it was given, after some calls.
  pub data Packs : S → Bytes → Bytes → Type 0 where
    begun : Packs k.fresh [] []
    written :
        {st : S} {out inp : Bytes} (d : Bytes)
        → Packs st out inp
        → Packs (k.pack d st).0 (out ++ (k.pack d st).1) (inp ++ d)
    flushed :
        {st : S} {out inp : Bytes}
        → Packs st out inp
        → Packs (k.pack_flush st).0 (out ++ (k.pack_flush st).1) inp

  -- compress/gzip: after Close a reader gets back what was written.
  pub record IsCodec (decode : Bytes → Option Bytes) : Type 0 where
    pub decoded :
        (st : S) (out inp : Bytes) → Packs st out inp → decode (out ++ k.pack_close st) ≡ some inp

  abbrev wrapper : Out → Option S → Bool → Wrapped S
  wrapper out gz wrote_header = record { out = out; gz = gz; wrote_header = wrote_header }

  -- A handler's response without compression, and the wrapper, once a header has been written.
  data Rel : Out → Wrapped S → Type 0 where
    passing :
        (headers : Headers) (sent : ℕ × Headers) (body : Bytes)
        → Rel
            (out_of headers (some sent) body)
            (wrapper (out_of headers (some sent) body) none true)
    packing :
        (headers live h : Headers) (c : ℕ) (st : S) (inp out : Bytes)
        → eligible h ≡ true
        → has_body c ≡ true
        → Packs st out inp
        → Rel
            (out_of headers (some (c, h)) inp)
            (wrapper (out_of live (some (c, packed h)) out) (some st) true)
    bodiless :
        (headers live h : Headers) (c : ℕ) (st : S)
        → eligible h ≡ true
        → has_body c ≡ false
        → Rel
            (out_of headers (some (c, h)) [])
            (wrapper (out_of live (some (c, packed h)) []) (some st) true)

  passing_write :
      (headers : Headers) (sent : ℕ × Headers) (body d : Bytes)
      → Rel
          (plain_call (write d) (out_of headers (some sent) body))
          (wrapped_call k (write d) (wrapper (out_of headers (some sent) body) none true))
  unfolding plain_call wrapped_call wrapped_write through append_body
  passing_write headers (c, h) body d = either (has_body c)
    where
      either :
          (b : Bool)
          → Rel
              (if b
                then out_of headers (some (c, h)) (body ++ d)
                else out_of headers (some (c, h)) body)
              (wrapper
                (if b
                  then out_of headers (some (c, h)) (body ++ d)
                  else out_of headers (some (c, h)) body)
                none
                true)
      either true = passing headers (c, h) (body ++ d)
      either false = passing headers (c, h) body

  Rel-call :
      {a : Out} {w : Wrapped S} (c : Call) → Rel a w → Rel (plain_call c a) (wrapped_call k c w)
  unfolding plain_call wrapped_call wrapped_write wrapped_write_header wrapped_flush through
      append_body send_header
  Rel-call (change f) (passing headers s body) = passing (f headers) s body
  Rel-call (write_header code) (passing headers s body) = passing headers s body
  Rel-call (write d) (passing headers s body) = passing_write headers s body d
  Rel-call flush (passing headers s body) = passing headers s body
  Rel-call (change f) (packing headers live h c st inp out e b p) =
      packing (f headers) (f live) h c st inp out e b p
  Rel-call (write_header code) (packing headers live h c st inp out e b p) =
      packing headers live h c st inp out e b p
  Rel-call (write d) (packing headers live h c st inp out e b p) =
      rw b (packing headers live h c _ _ _ e b (written d p))
  Rel-call flush (packing headers live h c st inp out e b p) =
      rw b (packing headers live h c _ _ _ e b (flushed p))
  Rel-call (change f) (bodiless headers live h c st e b) = bodiless (f headers) (f live) h c st e b
  Rel-call (write_header code) (bodiless headers live h c st e b) = bodiless headers live h c st e b
  Rel-call (write d) (bodiless headers live h c st e b) = rw b (bodiless headers live h c _ e b)
  Rel-call flush (bodiless headers live h c st e b) = rw b (bodiless headers live h c _ e b)

  Rel-calls :
      (cs : List Call) {a : Out} {w : Wrapped S} → Rel a w → Rel (plain cs a) (wrapped k cs w)
  unfolding plain wrapped
  Rel-calls [] r = r
  Rel-calls (c ∷ cs) r = Rel-calls cs (Rel-call c r)

  -- The call that writes the header.
  Rel-first :
      (headers : Headers) (code : ℕ) (e b : Bool)
      → is_informational code ≡ false
      → eligible headers ≡ e
      → has_body code ≡ b
      → Rel
          (send_header code none (out_of headers none []))
          (decide_packing k e code (wrapper (out_of headers none []) none false))
  unfolding decide_packing send_header packed
  Rel-first headers code false b final e h = rw final (passing headers (code, headers) [])
  Rel-first headers code true true final e h =
      rw final (packing headers (packed headers) headers code k.fresh [] [] e h begun)
  Rel-first headers code true false final e h =
      rw final (bodiless headers (packed headers) headers code k.fresh e h)

  Rel-header :
      (headers : Headers) (code : ℕ)
      → is_informational code ≡ false
      → Rel
          (plain_call (write_header code) (out_of headers none []))
          (wrapped_call k (write_header code) (wrapper (out_of headers none []) none false))
  unfolding plain_call wrapped_call wrapped_write_header
  Rel-header headers code final =
      Rel-first headers code (eligible headers) (has_body code) final refl refl

  -- A write without a header before it.
  Rel-opened :
      (headers : Headers) (d : Bytes) (e : Bool)
      → eligible headers ≡ e
      → Rel (append_body d none (out_of headers none [])) (
          through k d
            (decide_packing k e 200 (wrapper (out_of headers none []) none false)).gz
            (decide_packing k e 200 (wrapper (out_of headers none []) none false)))
  unfolding decide_packing through append_body send_header packed
  Rel-opened headers d false e = passing headers (200, headers) d
  Rel-opened headers d true e =
      packing headers (packed headers) headers 200 _ _ _ e refl (written d begun)

  Rel-write :
      (headers : Headers) (d : Bytes)
      → Rel
          (plain_call (write d) (out_of headers none []))
          (wrapped_call k (write d) (wrapper (out_of headers none []) none false))
  unfolding plain_call wrapped_call wrapped_write wrapped_write_header
  Rel-write headers d = Rel-opened headers d (eligible headers) refl

-- A handler that, but for changes of its headers, first sets a status that is not informational or
-- writes a part of the body.
abbrev pub IsFinal : List Call → Type 0
IsFinal [] = Unit
IsFinal (change f ∷ cs) = IsFinal cs
IsFinal (write_header code ∷ cs) = is_informational code ≡ false
IsFinal (write d ∷ cs) = Unit
IsFinal (flush ∷ cs) = true ≡ false

-- The body after decompression, where the status has one.
abbrev pub IsDecoded : (Bytes → Option Bytes) → Bool → Bytes → Bytes → Type 0
IsDecoded decode true sent plain_body = decode sent ≡ some plain_body
IsDecoded decode false sent plain_body = (sent ≡ []) × (plain_body ≡ [])

-- The headers of a compressed response, against those that the handler sent.
abbrev pub AreEncoded : Headers → Headers → Type 0
AreEncoded h encoded =
    (name : Bytes)
    → values name encoded ≡ (
        if bytes_eq (codes "Content-Length") name
        then []
        else if bytes_eq (codes "Content-Encoding") name
        then codes "gzip" ∷ []
        else values name h)

packed-AreEncoded : (h : Headers) → AreEncoded h (packed h)
unfolding packed
packed-AreEncoded h name =
    values-delete name (codes "Content-Length") (put (codes "Content-Encoding") (codes "gzip") h)
    ∙ rw (values-put name (codes "Content-Encoding") (codes "gzip") h) refl

-- What goes out, against what would go out without compression.
pub data IsSame (decode : Bytes → Option Bytes) (plain_out out : Out) : Type 0 where
  untouched : out ≡ plain_out → IsSame decode plain_out out
  compressed :
      (c : ℕ) (h encoded : Headers)
      → plain_out.sent ≡ some (c, h)
      → out.sent ≡ some (c, encoded)
      → AreEncoded h encoded
      → eligible h ≡ true
      → IsDecoded decode (has_body c) out.body plain_out.body
      → IsSame decode plain_out out

-- The response of the handler alone: for a client that asks for gzip, with the Vary header.
abbrev pub alone : Bool → List Call → Headers → Out
alone true cs headers =
    finish (plain cs (out_of (add (codes "Vary") (codes "Accept-Encoding") headers) none []))
alone false cs headers = finish (plain cs (out_of headers none []))

module _ {S : Type 0} (k : Codec S) (decode : Bytes → Option Bytes) (law : IsCodec k decode) where
  IsSame-Rel : {a : Out} {w : Wrapped S} → Rel k a w → IsSame decode (finish a) (unwrap k w)
  unfolding finish close send_header append_body
  IsSame-Rel (passing headers s body) = untouched refl
  IsSame-Rel (packing headers live h c st inp out e b p) = rw b (
      compressed c h (packed h) refl refl (packed-AreEncoded h) e (rw b (law.decoded st out inp p)))
  IsSame-Rel (bodiless headers live h c st e b) =
      rw b (compressed c h (packed h) refl refl (packed-AreEncoded h) e (rw b (refl, refl)))

  IsSame-calls :
      (cs : List Call) (headers : Headers)
      → IsFinal cs
      → IsSame decode (finish (plain cs (out_of headers none []))) (
          unwrap k (
            wrapped k cs
              (record { out = out_of headers none []; gz = none; wrote_header = false })))
  unfolding plain wrapped plain_call wrapped_call close
  IsSame-calls [] headers final = untouched refl
  IsSame-calls (change f ∷ cs) headers final = IsSame-calls cs (f headers) final
  IsSame-calls (write_header code ∷ cs) headers final =
      IsSame-Rel (Rel-calls k cs (Rel-header k headers code final))
  IsSame-calls (write d ∷ cs) headers final = IsSame-Rel (Rel-calls k cs (Rel-write k headers d))
  IsSame-calls (flush ∷ cs) headers final = cc final

  IsSame-either :
      (negotiated : Bool) (cs : List Call) (headers : Headers)
      → IsFinal cs
      → IsSame decode (alone negotiated cs headers) (
          if negotiated
          then unwrap k (wrapped k cs (wrap_writer k (out_of headers none [])))
          else finish (plain cs (out_of headers none [])))
  IsSame-either true cs headers final =
      IsSame-calls cs (add (codes "Vary") (codes "Accept-Encoding") headers) final
  IsSame-either false cs headers final = untouched refl

  -- Compression changes nothing but the encoding: a response goes out as the handler makes it, or with
  -- the same status, the headers that it sent but `Content-Encoding: gzip` and no `Content-Length`, and
  -- a body that decompresses to the handler's. The latter happens only if the handler sent a
  -- compressible content type and no encoding of its own. (`compress/gzip` can be undone; before it
  -- flushes, the handler sets a final status or writes something.)
  pub gzip-IsSame :
      (request : Headers) (cs : List Call) (headers : Headers)
      → IsFinal cs
      → IsSame decode
          (alone (negotiates request) cs headers)
          (gzip k request cs (out_of headers none []))
  unfolding gzip
  gzip-IsSame request cs headers final = IsSame-either (negotiates request) cs headers final
