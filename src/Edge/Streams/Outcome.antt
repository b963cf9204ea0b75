-- ===== src/Edge/Streams/Outcome.antt =====
-- What client and upstream see of each other, and what the handler returns in the end.
use lynk.Base.{
  ℕ, zero, suc, ◌≡◌, ◌≢◌, ◌⊎◌, inl, inr, refl, sym, subst, arith, Bytes, true, List, [], ◌∷◌,
  Option, none, some,
}
use lynk.Edge.Http.{Headers}
use lynk.Edge.Streams.{
  Status, Fault, eof, failed, UpPump, up_receiving, up_taken, up_sending, up_ended, DownPump,
  down_receiving, down_taken, heading, announcing, down_sending, down_ended, waiting, returned,
  Streams, client_broke, outcome, take_down, Step, selects_down, Reach,
}
use lynk.Edge.Streams.Order.{
  IsPrefix, UpOk, EndOk, DownOk, Reason, completed, broke, MainOk, down_open, same-IsPrefix,
  Reach-Inv,
}

UpOk-IsPrefix : (p : UpPump) (a b : List Bytes) → UpOk p b a → IsPrefix a b
UpOk-IsPrefix up_receiving a b h = same-IsPrefix h
UpOk-IsPrefix (up_sending f) a b h = (f ∷ [], h)
UpOk-IsPrefix (up_ended e) a b h = h
UpOk-IsPrefix (up_taken e) a b h = h

EndOk-IsPrefix : (e : Fault) (a b : List Bytes) → EndOk e b a → IsPrefix a b
EndOk-IsPrefix eof a b h = same-IsPrefix h
EndOk-IsPrefix (failed e) a b h = h

DownOk-IsPrefix :
    (p : DownPump) (a b : List Bytes) (h : Option Headers) → DownOk p b a h → IsPrefix a b
DownOk-IsPrefix down_receiving a b md_sent h = same-IsPrefix h
DownOk-IsPrefix (heading f) a b md_sent h = (f ∷ [], h)
DownOk-IsPrefix (announcing f md) a b md_sent h = (f ∷ [], h)
DownOk-IsPrefix (down_sending f) a b md_sent h = (f ∷ [], h.0)
DownOk-IsPrefix (down_ended e) a b md_sent h = EndOk-IsPrefix e a b h
DownOk-IsPrefix (down_taken e) a b md_sent h = EndOk-IsPrefix e a b h

-- Nothing is made up, reordered or skipped: at every moment the frames that the upstream has taken
-- are the first ones that the client sent, the frames that the client has taken are the first ones
-- that the upstream sent, and the client has been given the upstream's headers before any frame.
pub frames_in_order :
    {print : Fault → Bytes} {s : Streams}
    → Reach print s
    → IsPrefix s.forwarded s.requests
      × IsPrefix s.delivered s.responses
      × (s.delivered ≢ [] → s.headers ≢ none)
frames_in_order {s} r =
    let inv = Reach-Inv r in
    (
      UpOk-IsPrefix s.up _ _ inv.up_ok,
      DownOk-IsPrefix s.down _ _ _ inv.down_ok,
      λ some_frame no_headers. some_frame (inv.first no_headers).1,
    )

-- What the handler returned, and why.
pub data Outcome (print : Fault → Bytes) (s : Streams) : Option Status → Type 0 where
  all_delivered :
      s.down ≡ down_taken eof → s.delivered ≡ s.responses → s.trailers ≡ true → Outcome print s none
  upstream_failed :
      (e : Status) → s.down ≡ down_taken (failed e) → s.trailers ≡ true → Outcome print s (some e)
  client_left :
      (e : Status)
      → s.up ≡ up_taken (failed e)
      → s.cancelled ≡ true
      → Outcome print s (some (client_broke print (failed e)))

completed-Outcome :
    (print : Fault → Bytes) (s : Streams) (e : Fault)
    → s.down ≡ down_taken e
    → s.trailers ≡ true
    → DownOk (down_taken e) s.responses s.delivered s.headers
    → Outcome print s (outcome e)
completed-Outcome print s eof d t ok = all_delivered d (sym ok) t
completed-Outcome print s (failed e) d t ok = upstream_failed e d t

explained :
    (print : Fault → Bytes) (s : Streams) (r : Option Status)
    → DownOk s.down s.responses s.delivered s.headers
    → Reason print r s.up s.down s.trailers s.cancelled
    → Outcome print s r
explained print s r ok (completed e d o t) =
    subst (Outcome print s) (sym o) (
      completed-Outcome print s e d t
        (subst (λ p. DownOk p s.responses s.delivered s.headers) d ok))
explained print s r ok (broke e u o c) = subst (Outcome print s) (sym o) (client_left e u c)

-- The call returns without an error only when the upstream has ended without one, every frame that it
-- sent has been taken by the client and its trailers have been passed on. An error that is returned is
-- the one with which the pump to the client ended, again with the trailers, or tells that the client
-- was lost, and then the upstream call has been cancelled. So the last line of the handler is never
-- reached.
pub returned-Outcome :
    {print : Fault → Bytes} {s : Streams} {r : Option Status}
    → Reach print s
    → s.main ≡ returned r
    → Outcome print s r
returned-Outcome {print} {s} {r} reach h =
    let inv = Reach-Inv reach in
    explained print s r inv.down_ok
      (subst (λ m. MainOk print m s.up s.down s.trailers s.cancelled) h inv.main_ok)

-- The pump to the client is at one of its calls.
pub data IsAtCall : DownPump → Type 0 where
  at_receive : IsAtCall down_receiving
  at_header : (f : Bytes) → IsAtCall (heading f)
  at_send_header : (f : Bytes) (md : Headers) → IsAtCall (announcing f md)
  at_send : (f : Bytes) → IsAtCall (down_sending f)

call_or_end : (p : DownPump) → down_open p ≡ true → IsAtCall p ⊎ ((e : Fault) × (p ≡ down_ended e))
call_or_end down_receiving h = inl at_receive
call_or_end (heading f) h = inl (at_header f)
call_or_end (announcing f md) h = inl (at_send_header f md)
call_or_end (down_sending f) h = inl (at_send f)
call_or_end (down_ended e) h = inr (e, refl)
call_or_end (down_taken e) h = cc h

-- The loop can return at once.
abbrev pub CanReturn : (Fault → Bytes) → Streams → Type 0
CanReturn print s =
    (e : Fault) × (t : Streams) × (s.down ≡ down_ended e)
    × Step print s t
    × (t.main ≡ returned (outcome e))

can_return :
    (print : Fault → Bytes) (s : Streams) (n : ℕ) (e : Fault)
    → s.main ≡ waiting (suc n)
    → s.down ≡ down_ended e
    → CanReturn print s
unfolding take_down
can_return print s n e h d = (e, take_down e s, d, selects_down e n h d, refl)

waits :
    {print : Fault → Bytes} {s : Streams} {n : ℕ}
    → Reach print s
    → s.main ≡ waiting n
    → MainOk print (waiting n) s.up s.down s.trailers s.cancelled
waits {print} {s} reach h =
    subst (λ m. MainOk print m s.up s.down s.trailers s.cancelled) h (Reach-Inv reach).main_ok

-- The handler never hangs by itself: while it waits, either the pump to the client is at one of its
-- four calls, or the upstream's end is known and the next select can return it, whatever the client
-- and the other pump are doing.
pub waiting-CanReturn :
    {print : Fault → Bytes} {s : Streams} {n : ℕ}
    → Reach print s
    → s.main ≡ waiting n
    → IsAtCall s.down ⊎ CanReturn print s
waiting-CanReturn {n = zero} reach h = absurd (omega (arith, (waits reach h).0))
waiting-CanReturn {print} {s} {n = suc n} reach h = elim (call_or_end s.down (waits reach h).3) [
  | inl call ↦ inl call
  | inr (e, ended) ↦ inr (can_return print s n e h ended)
]
