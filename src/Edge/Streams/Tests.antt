-- ===== src/Edge/Streams/Tests.antt =====
-- A unary call from start to end, and one whose client is lost.
use lynk.Base.{has_prefix, ◌≡◌, ◌≢◌, ◌⊎◌, refl, Bytes, codes, [], ◌∷◌, none, some, true}
use lynk.Edge.Streams.{
  Fault, eof, failed, internal, returned, Streams, take_up, take_down, after_response, refused,
  unimplemented, open_streams, client_sends, client_stops, upstream_takes, upstream_sends,
  upstream_stops, header_comes, header_taken, client_takes, selects_up, selects_down, Reach, start,
  later,
}
use lynk.Edge.Streams.Order.{IsPrefix}
use lynk.Edge.Streams.Outcome.{
  Outcome, frames_in_order, returned-Outcome, IsAtCall, CanReturn, waiting-CanReturn,
}

abbrev text_of : Fault → Bytes
text_of eof = codes "EOF"
text_of (failed e) = codes "failed"

record Run : Type 0 where
  last : Streams
  path : Reach text_of last

abbrev ran : {s : Streams} → Reach text_of s → Run
ran {s} r = record { last = s; path = r }

-- The request goes up, and the client ends.
asked : Run
unfolding take_up
asked = ran (
    later
      (later
        (later (later start (client_sends (codes "ask") refl)) (upstream_takes (codes "ask") refl))
        (client_stops eof refl))
      (selects_up eof 1 refl refl))

-- The reply comes down, and the upstream ends.
answered : Run
unfolding after_response asked
answered = ran (
    later
      (later
        (later
          (later (later asked.path (upstream_sends (codes "reply") refl))
            (header_comes (codes "reply") [] refl))
          (header_taken (codes "reply") [] refl))
        (client_takes (codes "reply") refl))
      (upstream_stops eof refl))

finished : Run
unfolding take_down answered asked after_response take_up
finished = ran (later answered.path (selects_down eof 0 refl refl))

frames_in_order_example :
    IsPrefix finished.last.forwarded finished.last.requests
    × IsPrefix finished.last.delivered finished.last.responses
    × (finished.last.delivered ≢ [] → finished.last.headers ≢ none)
frames_in_order_example = frames_in_order finished.path

returned-Outcome_example : Outcome text_of finished.last none
unfolding finished take_down
returned-Outcome_example = returned-Outcome finished.path refl

waiting-CanReturn_example : IsAtCall answered.last.down ⊎ CanReturn text_of answered.last
unfolding answered asked take_up
waiting-CanReturn_example = waiting-CanReturn {n = 1} answered.path refl

unary_runs :
    (finished.last.forwarded ≡ codes "ask" ∷ [])
    × (finished.last.delivered ≡ codes "reply" ∷ [])
    × (finished.last.main ≡ returned none)
    × (finished.last.half_closed ≡ true)
unfolding finished answered asked take_up take_down
unary_runs = (refl, refl, refl, refl)

-- The client is lost at once.
lost : Run
unfolding take_up
lost = ran (
    later (later start (client_stops (failed (internal (codes "reset"))) refl))
      (selects_up (failed (internal (codes "reset"))) 1 refl refl))

lost_runs :
    (lost.last.main ≡ returned (some (internal (codes "proxy client->upstream: failed"))))
    × (lost.last.cancelled ≡ true)
unfolding lost take_up
lost_runs = (refl, refl)

unrouted_runs :
    open_streams (λ conn md path. none) [] (some (codes "/core.Users/List"))
    ≡ refused (unimplemented (codes "no backend for method /core.Users/List"))
unfolding open_streams has_prefix
unrouted_runs = refl
