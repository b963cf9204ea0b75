-- ===== src/Edge/Streams.antt =====
-- The transparent proxy of one RPC (services/gateway/internal/edge/forward.go): its two pumps and the
-- loop that waits for them, interleaved with each other and with what client and upstream do.
-- Of the calls on a stream the model relies on grpc-go for this: an end of the stream is reported as
-- EOF by `RecvMsg`, and by `SendMsg` of a client stream; every other error is a status.
pub mod Order
pub mod Outcome
mod Tests
use lynk.Base.{
  ℕ, zero, suc, ◌+◌, ◌≡◌, Bytes, codes, Bool, true, false, List, [], ◌∷◌, ◌++◌, Option, none, some,
}
use lynk.Edge.Http.{Headers}
use lynk.Edge.Proxy.{direct}

pub record Status : Type 0 where
  pub code : ℕ
  pub message : Bytes

-- codes.Internal, codes.Unimplemented and codes.Unavailable
abbrev pub internal : Bytes → Status
internal message = record { code = 13; message = message }

abbrev pub unimplemented : Bytes → Status
unimplemented message = record { code = 12; message = message }

abbrev pub unavailable : Bytes → Status
unavailable message = record { code = 14; message = message }

-- io.EOF, or a status
pub data Fault : Type 0 where
  eof : Fault
  failed : Status → Fault

-- Where pumpClientToUpstream stands: at RecvMsg, at SendMsg, or its result in its channel, which the
-- loop then takes out.
pub data UpPump : Type 0 where
  up_receiving : UpPump
  up_sending : Bytes → UpPump
  up_ended up_taken : Fault → UpPump

-- Where pumpUpstreamToClient stands: at RecvMsg, at Header, at SendHeader, at SendMsg, or ended.
pub data DownPump : Type 0 where
  down_receiving : DownPump
  heading : Bytes → DownPump
  announcing : Bytes → Headers → DownPump
  down_sending : Bytes → DownPump
  down_ended down_taken : Fault → DownPump

-- The loop, with the rounds that are left, or what the handler returned; `none` is nil.
pub data Main : Type 0 where
  waiting : ℕ → Main
  returned : Option Status → Main

-- `requests` and `responses` are the frames that RecvMsg gave, `forwarded` and `delivered` those that
-- SendMsg took. `round` counts the rounds of the pump to the client.
pub record Streams : Type 0 where
  pub up : UpPump
  pub down : DownPump
  pub main : Main
  pub round : ℕ
  pub requests : List Bytes
  pub forwarded : List Bytes
  pub responses : List Bytes
  pub delivered : List Bytes
  pub headers : Option Headers
  pub half_closed : Bool
  pub cancelled : Bool
  pub trailers : Bool

abbrev pub opened : Streams
opened = record {
  up = up_receiving;
  down = down_receiving;
  main = waiting 2;
  round = 0;
  requests = [];
  forwarded = [];
  responses = [];
  delivered = [];
  headers = none;
  half_closed = false;
  cancelled = false;
  trailers = false;
}

-- What a handler returns before it has a stream to the upstream, or the backend, the metadata and the
-- state in which the pumps start. `dial` is NewStream: the text of its error, if it fails.
pub data Opening : Type 0 where
  refused : Status → Opening
  proxied : Bytes → Headers → Streams → Opening

abbrev dialled : Bytes → Bytes → Headers → Option Bytes → Opening
dialled path conn md none = proxied conn md opened
dialled path conn md (some text) =
    refused (unavailable (codes "proxy dial " ++ (path ++ (codes ": " ++ text))))

abbrev directed :
    (Bytes → Headers → Bytes → Option Bytes) → Bytes → Option (Bytes × Headers) → Opening
directed dial path none = refused (unimplemented (codes "no backend for method " ++ path))
directed dial path (some (conn, md)) = dialled path conn md (dial conn md path)

abbrev with_method : (Bytes → Headers → Bytes → Option Bytes) → Headers → Option Bytes → Opening
with_method dial incoming none = refused (internal (codes "no method in proxy stream"))
with_method dial incoming (some path) = directed dial path (direct incoming path)

-- `transparentHandler` up to the start of the pumps.
unfoldable pub open_streams :
    (Bytes → Headers → Bytes → Option Bytes) → Headers → Option Bytes → Opening
unfolding direct
open_streams dial incoming full_method = with_method dial incoming full_method

-- After `continue`, with so many rounds left.
abbrev pub next_round : ℕ → Main
next_round zero =
    returned (some (internal (codes "proxy: both pumps exited without upstream completion")))
next_round (suc n) = waiting (suc n)

-- Whether the deferred `cancel` runs then.
abbrev leaves_loop : ℕ → Bool
leaves_loop zero = true
leaves_loop (suc n) = false

-- `print` is `%v` of an error.
module _ (print : Fault → Bytes) where
  abbrev pub client_broke : Fault → Status
  client_broke e = internal (codes "proxy client->upstream: " ++ print e)

  -- The first case of the select, with `n` rounds left after this one.
  unfoldable pub take_up : Fault → ℕ → Streams → Streams
  take_up eof n s = record s {
    up = up_taken eof;
    half_closed = true;
    cancelled = leaves_loop n;
    main = next_round n;
  }
  take_up (failed e) n s = record s {
    up = up_taken (failed e);
    cancelled = true;
    main = returned (some (client_broke (failed e)));
  }

abbrev pub outcome : Fault → Option Status
outcome eof = none
outcome (failed e) = some e

-- The second case; the deferred `cancel` runs on the way out.
unfoldable pub take_down : Fault → Streams → Streams
take_down e s = record s {
  down = down_taken e;
  trailers = true;
  cancelled = true;
  main = returned (outcome e);
}

-- RecvMsg gave the frame: to its headers in the first round, and otherwise to SendMsg.
unfoldable pub after_response : ℕ → Bytes → DownPump
after_response zero f = heading f
after_response (suc i) f = down_sending f

-- One call of a pump and its reply, or one select of the loop.
pub data Step (print : Fault → Bytes) (s : Streams) : Streams → Type 0 where
  client_sends :
      (f : Bytes)
      → s.up ≡ up_receiving
      → Step print s (record s { up = up_sending f; requests = s.requests ++ f ∷ [] })
  client_stops : (e : Fault) → s.up ≡ up_receiving → Step print s (record s { up = up_ended e })
  upstream_takes :
      (f : Bytes)
      → s.up ≡ up_sending f
      → Step print s (record s { up = up_receiving; forwarded = s.forwarded ++ f ∷ [] })
  upstream_rejects :
      (f : Bytes) (e : Fault) → s.up ≡ up_sending f → Step print s (record s { up = up_ended e })
  upstream_sends :
      (f : Bytes)
      → s.down ≡ down_receiving
      → Step print s
          (record s { down = after_response s.round f; responses = s.responses ++ f ∷ [] })
  upstream_stops :
      (e : Fault) → s.down ≡ down_receiving → Step print s (record s { down = down_ended e })
  header_comes :
      (f : Bytes) (md : Headers)
      → s.down ≡ heading f
      → Step print s (record s { down = announcing f md })
  header_fails :
      (f : Bytes) (e : Status)
      → s.down ≡ heading f
      → Step print s (record s { down = down_ended (failed e) })
  header_taken :
      (f : Bytes) (md : Headers)
      → s.down ≡ announcing f md
      → Step print s (record s { down = down_sending f; headers = some md })
  header_refused :
      (f : Bytes) (md : Headers) (e : Status)
      → s.down ≡ announcing f md
      → Step print s (record s { down = down_ended (failed e) })
  client_takes :
      (f : Bytes)
      → s.down ≡ down_sending f
      → Step print s (record s {
        down = down_receiving;
        round = s.round + 1;
        delivered = s.delivered ++ f ∷ [];
      })
  client_refuses :
      (f : Bytes) (e : Status)
      → s.down ≡ down_sending f
      → Step print s (record s { down = down_ended (failed e) })
  selects_up :
      (e : Fault) (n : ℕ)
      → s.main ≡ waiting (suc n)
      → s.up ≡ up_ended e
      → Step print s (take_up print e n s)
  selects_down :
      (e : Fault) (n : ℕ)
      → s.main ≡ waiting (suc n)
      → s.down ≡ down_ended e
      → Step print s (take_down e s)

pub data Reach (print : Fault → Bytes) : Streams → Type 0 where
  start : Reach print opened
  later : {s t : Streams} → Reach print s → Step print s t → Reach print t
