-- ===== src/Edge/Http/Values.antt =====
-- What a header says after it was changed.
use lynk.Base.{◌≡◌, refl, Bytes, [], ◌∷◌, ◌++◌, arith, bytes_eq, bytes_eq_iff, if◌then◌else◌}
use lynk.Edge.Http.{Headers, values, delete, put}

pub values-delete :
    (n m : Bytes) (h : Headers) → values n (delete m h) ≡ (if bytes_eq m n then [] else values n h)
unfolding values delete
values-delete n m [] = ground arith
values-delete n m ((k, v) ∷ h) =
    ground (arith, values-delete n m h, bytes_eq_iff k m, bytes_eq_iff k n, bytes_eq_iff m n)

pub values-put :
    (n m v : Bytes) (h : Headers)
    → values n (put m v h) ≡ (if bytes_eq m n then v ∷ [] else values n h)
unfolding values put
values-put n m v h = ground (arith, values-delete n m h)

pub values-append : (n : Bytes) (h k : Headers) → values n (h ++ k) ≡ values n h ++ values n k
unfolding values
values-append n [] k = refl
values-append n ((m, v) ∷ h) k = ground (arith, values-append n h k)
