-- ===== src/Edge/Proxy/Forwarding.antt =====
-- Which metadata reaches a backend (edge/proxy.go).
use lynk.Base.{
  ◌⊎◌, inl, ◌≡◌, refl, ap, ◌∙◌, Bytes, Bool, List, [], ◌∷◌, Option, none, some, arith, bytes_eq,
  bytes_eq_iff, any, map, append-nil, if◌then◌else◌,
}
use lynk.Edge.Http.{Headers, values, delete}
use lynk.Edge.Http.Values.{values-delete, values-append}
use lynk.Edge.Proxy.{forwardable_headers, set_all, set_if_any, forward, resolve, connected, direct}

pub values-map :
    (n key : Bytes) (vs : List Bytes)
    → values n (map (λ v. (key, v)) vs) ≡ (if bytes_eq key n then vs else [])
unfolding values
values-map n key [] = ground arith
values-map n key (v ∷ vs) = ground (arith, values-map n key vs)

values-set_all :
    (n key : Bytes) (vs : List Bytes) (md : Headers)
    → values n (set_all key vs md) ≡ (if bytes_eq key n then vs else values n md)
unfolding set_all
values-set_all n key vs md =
    values-append n (map (λ v. (key, v)) vs) (delete key md)
    ∙ ground (arith, values-map n key vs, values-delete n key md, append-nil vs)

-- Nothing under the name yet, or all that came in.
abbrev Copied : Bytes → Headers → Headers → Type 0
Copied n incoming md = (values n md ≡ []) ⊎ (values n md ≡ values n incoming)

values-set_if_any :
    (n key : Bytes) (incoming md : Headers) (vs : List Bytes)
    → values key incoming ≡ vs
    → Copied n incoming md
    → values n (set_if_any key vs md) ≡ (if bytes_eq key n then values n incoming else values n md)
values-set_if_any n key incoming md [] e h = ground (arith, e, h, bytes_eq_iff key n)
values-set_if_any n key incoming md (v ∷ vs) e h =
    ground (arith, e, h, bytes_eq_iff key n, values-set_all n key (v ∷ vs) md)

-- One of the keys of the list.
abbrev pub is_listed : List Bytes → Bytes → Bool
is_listed keys n = any (λ key. bytes_eq key n) keys

values-forward :
    (n : Bytes) (keys : List Bytes) (incoming md : Headers)
    → Copied n incoming md
    → values n (forward keys incoming md)
      ≡ (if is_listed keys n then values n incoming else values n md)
unfolding forward
values-forward n [] incoming md h = refl
values-forward n (key ∷ keys) incoming md h =
    let step = values-set_if_any n key incoming md (values key incoming) refl h in
    let next = set_if_any key (values key incoming) md in
    ground (arith, h, step, values-forward n keys incoming next)

sent_is :
    (o : Option Bytes) (md sent : Headers) (conn : Bytes)
    → connected md o ≡ some (conn, sent)
    → sent ≡ md
sent_is none md sent conn h = cc
sent_is (some c) md sent conn h = ground (arith, h)

-- A backend is given, under each of the four names that identify the caller and the request,
-- exactly the values that came in under it, and nothing at all under any other name.
pub direct-values :
    (incoming sent : Headers) (full_method conn n : Bytes)
    → direct incoming full_method ≡ some (conn, sent)
    → values n sent ≡ (if is_listed forwardable_headers n then values n incoming else [])
unfolding direct
direct-values incoming sent full_method conn n h =
    ap (values n)
      (sent_is (resolve full_method) (forward forwardable_headers incoming []) sent conn h)
    ∙ values-forward n forwardable_headers incoming [] (inl refl)
