-- ===== src/Edge/Streams/Order.antt =====
-- What holds in every state of the proxied RPC.
use lynk.Base.{
  ℕ, zero, suc, ◌≤◌, ◌≡◌, ◌≢◌, refl, sym, ap, subst, ◌∙◌, arith, Bytes, Bool, true, false, List, [],
  ◌∷◌, ◌++◌, append-nil, Option, none, some,
}
use lynk.Edge.Http.{Headers}
use lynk.Edge.Streams.{
  Status, Fault, eof, failed, UpPump, up_receiving, up_taken, up_sending, up_ended, DownPump,
  down_receiving, down_taken, heading, announcing, down_sending, down_ended, Main, waiting,
  returned, Streams, opened, client_broke, take_up, outcome, take_down, after_response, Step,
  client_sends, client_stops, upstream_takes, upstream_rejects, upstream_sends, upstream_stops,
  header_comes, header_fails, header_taken, header_refused, client_takes, client_refuses,
  selects_up, selects_down, Reach, start, later,
}

abbrev pub IsPrefix : List Bytes → List Bytes → Type 0
IsPrefix a b = (rest : List Bytes) × (b ≡ a ++ rest)

-- The frames on the way up; a pump that has ended may have lost the last one.
abbrev pub UpOk : UpPump → List Bytes → List Bytes → Type 0
UpOk up_receiving requests forwarded = requests ≡ forwarded
UpOk (up_sending f) requests forwarded = requests ≡ forwarded ++ f ∷ []
UpOk (up_ended e) requests forwarded = IsPrefix forwarded requests
UpOk (up_taken e) requests forwarded = IsPrefix forwarded requests

-- The frames on the way down, after an end by EOF all of them.
abbrev pub EndOk : Fault → List Bytes → List Bytes → Type 0
EndOk eof responses delivered = responses ≡ delivered
EndOk (failed e) responses delivered = IsPrefix delivered responses

abbrev pub DownOk : DownPump → List Bytes → List Bytes → Option Headers → Type 0
DownOk down_receiving responses delivered h = responses ≡ delivered
DownOk (heading f) responses delivered h = responses ≡ delivered ++ f ∷ []
DownOk (announcing f md) responses delivered h = responses ≡ delivered ++ f ∷ []
DownOk (down_sending f) responses delivered h = (responses ≡ delivered ++ f ∷ []) × (h ≢ none)
DownOk (down_ended e) responses delivered h = EndOk e responses delivered
DownOk (down_taken e) responses delivered h = EndOk e responses delivered

abbrev up_open : UpPump → Bool
up_open (up_taken e) = false
up_open p = true

abbrev pub down_open : DownPump → Bool
down_open (down_taken e) = false
down_open p = true

-- Why the handler returned.
pub data Reason (print : Fault → Bytes) (r : Option Status) (up : UpPump) (down : DownPump)
    (trailers cancelled : Bool) : Type 0 where
  completed :
      (e : Fault)
      → down ≡ down_taken e
      → r ≡ outcome e
      → trailers ≡ true
      → Reason print r up down trailers cancelled
  broke :
      (e : Status)
      → up ≡ up_taken (failed e)
      → r ≡ some (client_broke print (failed e))
      → cancelled ≡ true
      → Reason print r up down trailers cancelled

abbrev pub MainOk : (Fault → Bytes) → Main → UpPump → DownPump → Bool → Bool → Type 0
MainOk print (waiting n) up down trailers cancelled =
    (1 ≤ n) × (n ≤ 2) × (n ≡ 1 → up_open up ≡ false) × (down_open down ≡ true)
MainOk print (returned r) up down trailers cancelled = Reason print r up down trailers cancelled

pub record Inv (print : Fault → Bytes) (s : Streams) : Type 0 where
  pub up_ok : UpOk s.up s.requests s.forwarded
  pub down_ok : DownOk s.down s.responses s.delivered s.headers
  pub first : s.headers ≡ none → (s.round ≡ 0) × (s.delivered ≡ [])
  pub main_ok : MainOk print s.main s.up s.down s.trailers s.cancelled

up_taken_open : {p : UpPump} {e : Fault} → p ≡ up_taken e → up_open p ≡ true → true ≡ false
up_taken_open h o = sym o ∙ ap up_open h

down_taken_open : {p : DownPump} {e : Fault} → p ≡ down_taken e → down_open p ≡ true → true ≡ false
down_taken_open h o = sym o ∙ ap down_open h

-- A pump moves on from one call to another.
MainOk-up :
    (print : Fault → Bytes) (m : Main) (p q : UpPump) (d : DownPump) (t c : Bool)
    → up_open p ≡ true
    → up_open q ≡ true
    → MainOk print m p d t c
    → MainOk print m q d t c
MainOk-up print (waiting n) p q d t c hp hq (a, b, u, v) = (a, b, λ one. cc (sym hp ∙ u one), v)
MainOk-up print (returned r) p q d t c hp hq (completed e x y z) = completed e x y z
MainOk-up print (returned r) p q d t c hp hq (broke e x y z) = cc (up_taken_open x hp)

MainOk-down :
    (print : Fault → Bytes) (m : Main) (u : UpPump) (p q : DownPump) (t c : Bool)
    → down_open p ≡ true
    → down_open q ≡ true
    → MainOk print m u p t c
    → MainOk print m u q t c
MainOk-down print (waiting n) u p q t c hp hq (a, b, x, y) = (a, b, x, hq)
MainOk-down print (returned r) u p q t c hp hq (completed e x y z) = cc (down_taken_open x hp)
MainOk-down print (returned r) u p q t c hp hq (broke e x y z) = broke e x y z

pub same-IsPrefix : {a b : List Bytes} → b ≡ a → IsPrefix a b
same-IsPrefix {a} e = ([], e ∙ sym (append-nil a))

EndOk-same : (e : Fault) {a b : List Bytes} → b ≡ a → EndOk e b a
EndOk-same eof e = e
EndOk-same (failed s) e = same-IsPrefix e

pair_open : {d : DownPump} {p : DownPump} → d ≡ p → down_open p ≡ true → down_open d ≡ true
pair_open h o = ap down_open h ∙ o

up_is_open : {u : UpPump} {p : UpPump} → u ≡ p → up_open p ≡ true → up_open u ≡ true
up_is_open h o = ap up_open h ∙ o

module _ (print : Fault → Bytes) (s : Streams) (inv : Inv print s) where
  up_at : {p : UpPump} → s.up ≡ p → UpOk p s.requests s.forwarded
  up_at h = subst (λ p. UpOk p s.requests s.forwarded) h inv.up_ok

  down_at : {p : DownPump} → s.down ≡ p → DownOk p s.responses s.delivered s.headers
  down_at h = subst (λ p. DownOk p s.responses s.delivered s.headers) h inv.down_ok

  up_moves :
      {p : UpPump} (q : UpPump)
      → s.up ≡ p
      → up_open p ≡ true
      → up_open q ≡ true
      → MainOk print s.main q s.down s.trailers s.cancelled
  up_moves q h hp hq =
      MainOk-up print s.main s.up q s.down s.trailers s.cancelled (up_is_open h hp) hq inv.main_ok

  down_moves :
      {p : DownPump} (q : DownPump)
      → s.down ≡ p
      → down_open p ≡ true
      → down_open q ≡ true
      → MainOk print s.main s.up q s.trailers s.cancelled
  down_moves q h hp hq =
      MainOk-down print s.main s.up s.down q s.trailers s.cancelled (pair_open h hp) hq inv.main_ok

  first_response :
      (i : ℕ) (f : Bytes)
      → s.round ≡ i
      → s.responses ≡ s.delivered
      → DownOk (after_response i f) (s.responses ++ f ∷ []) s.delivered s.headers
  unfolding after_response
  first_response zero f e h = ap (λ l. l ++ f ∷ []) h
  first_response (suc i) f e h =
      (ap (λ l. l ++ f ∷ []) h, λ no_headers. ground (arith, inv.first no_headers))

  after_response-open : (i : ℕ) (f : Bytes) → down_open (after_response i f) ≡ true
  unfolding after_response
  after_response-open zero f = refl
  after_response-open (suc i) f = refl

  moved_up :
      {p : UpPump} (q : UpPump) (requests forwarded : List Bytes)
      → s.up ≡ p
      → up_open p ≡ true
      → up_open q ≡ true
      → UpOk q requests forwarded
      → Inv print (record s { up = q; requests = requests; forwarded = forwarded })
  moved_up q requests forwarded h hp hq ok = record {
    up_ok = ok;
    down_ok = inv.down_ok;
    first = inv.first;
    main_ok = up_moves q h hp hq;
  }

  moved_down :
      {p : DownPump} (q : DownPump) (round : ℕ) (responses delivered : List Bytes)
      (headers : Option Headers)
      → s.down ≡ p
      → down_open p ≡ true
      → down_open q ≡ true
      → DownOk q responses delivered headers
      → (headers ≡ none → (round ≡ 0) × (delivered ≡ []))
      → Inv print (record s {
        down = q;
        round = round;
        responses = responses;
        delivered = delivered;
        headers = headers;
      })
  moved_down q round responses delivered headers h hp hq ok first = record {
    up_ok = inv.up_ok;
    down_ok = ok;
    first = first;
    main_ok = down_moves q h hp hq;
  }

  main_at : {m : Main} → s.main ≡ m → MainOk print m s.up s.down s.trailers s.cancelled
  main_at h = subst (λ m. MainOk print m s.up s.down s.trailers s.cancelled) h inv.main_ok

  -- After the client's EOF there is a round left, and in the last round there is no other message.
  selected_up :
      (e : Fault) (n : ℕ)
      → s.main ≡ waiting (suc n)
      → s.up ≡ up_ended e
      → Inv print (take_up print e n s)
  unfolding take_up
  selected_up (failed e) n h g = record {
    up_ok = up_at g;
    down_ok = inv.down_ok;
    first = inv.first;
    main_ok = broke e refl refl refl;
  }
  selected_up eof zero h g = cc (sym (up_is_open g refl) ∙ (main_at h).2 refl)
  selected_up eof (suc n) h g = record {
    up_ok = up_at g;
    down_ok = inv.down_ok;
    first = inv.first;
    main_ok = (omega arith, omega (arith, (main_at h).1), λ one. refl, (main_at h).3);
  }

  selected_down : (e : Fault) → s.down ≡ down_ended e → Inv print (take_down e s)
  unfolding take_down
  selected_down e g = record {
    up_ok = inv.up_ok;
    down_ok = down_at g;
    first = inv.first;
    main_ok = completed e refl refl refl;
  }

Step-Inv : {print : Fault → Bytes} {s t : Streams} → Step print s t → Inv print s → Inv print t
Step-Inv {print} {s} (client_sends f h) inv =
    moved_up print s inv _ _ _ h refl refl (ap (λ l. l ++ f ∷ []) (up_at print s inv h))
Step-Inv {print} {s} (client_stops e h) inv =
    moved_up print s inv _ _ _ h refl refl (same-IsPrefix (up_at print s inv h))
Step-Inv {print} {s} (upstream_takes f h) inv =
    moved_up print s inv _ _ _ h refl refl (up_at print s inv h)
Step-Inv {print} {s} (upstream_rejects f e h) inv =
    moved_up print s inv _ _ _ h refl refl (f ∷ [], up_at print s inv h)
Step-Inv {print} {s} (upstream_sends f h) inv =
    moved_down print s inv _ _ _ _ _ h refl (after_response-open print s inv s.round f)
      (first_response print s inv s.round f refl (down_at print s inv h)) inv.first
Step-Inv {print} {s} (upstream_stops e h) inv =
    moved_down print s inv _ _ _ _ _ h refl refl (EndOk-same e (down_at print s inv h)) inv.first
Step-Inv {print} {s} (header_comes f md h) inv =
    moved_down print s inv _ _ _ _ _ h refl refl (down_at print s inv h) inv.first
Step-Inv {print} {s} (header_fails f e h) inv =
    moved_down print s inv _ _ _ _ _ h refl refl (f ∷ [], down_at print s inv h) inv.first
Step-Inv {print} {s} (header_taken f md h) inv =
    moved_down print s inv _ _ _ _ _ h refl refl (down_at print s inv h, λ e. cc) (λ e. cc)
Step-Inv {print} {s} (header_refused f md e h) inv =
    moved_down print s inv _ _ _ _ _ h refl refl (f ∷ [], down_at print s inv h) inv.first
Step-Inv {print} {s} (client_takes f h) inv =
    moved_down print s inv _ _ _ _ _ h refl refl (down_at print s inv h).0
      (λ e. absurd ((down_at print s inv h).1 e))
Step-Inv {print} {s} (client_refuses f e h) inv =
    moved_down print s inv _ _ _ _ _ h refl refl (f ∷ [], (down_at print s inv h).0) inv.first
Step-Inv {print} {s} (selects_up e n h g) inv = selected_up print s inv e n h g
Step-Inv {print} {s} (selects_down e n h g) inv = selected_down print s inv e g

Inv-opened : (print : Fault → Bytes) → Inv print opened
Inv-opened print = record {
  up_ok = refl;
  down_ok = refl;
  first = λ e. (refl, refl);
  main_ok = (omega arith, omega arith, λ one. absurd (omega (arith, one)), refl);
}

pub Reach-Inv : {print : Fault → Bytes} {s : Streams} → Reach print s → Inv print s
Reach-Inv {print} start = Inv-opened print
Reach-Inv (later r step) = Step-Inv step (Reach-Inv r)
