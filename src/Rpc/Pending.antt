-- ===== src/Rpc/Pending.antt =====
-- The peer's map of pending requests beside its timers, and how often promises are settled.
use text.Mathlib.TextEquality.{eq_iff}
use arc_browser_mcp.Prelude.{
  ℕ, suc, ◌+◌, ◌<◌, ◌≡◌, ◌≢◌, refl, ap, Bool, true, false, none, some, List, [], ◌∷◌, ◌++◌, map,
  arith, String, ◌==◌, All,
}
use arc_browser_mcp.Protocol.{BridgeError}
use arc_browser_mcp.Rpc.{
  RpcPeer, Timer, Effect, send, settle, protocol_error, on_event, handle, lookup, insert, delete,
  clear_timeout, reject_all,
}

abbrev pub Pending : Type 0
Pending = List (String × ℕ)

abbrev pub one_if : Bool → ℕ
one_if true = 1
one_if false = 0

-- How often the effects settle a promise, and how often it is waited for.
abbrev pub count_settled : ℕ → List Effect → ℕ
count_settled q [] = 0
count_settled q (settle p outcome ∷ es) = one_if (p == q) + count_settled q es
count_settled q (send _ ∷ es) = count_settled q es
count_settled q (protocol_error _ ∷ es) = count_settled q es
count_settled q (on_event _ _ _ ∷ es) = count_settled q es
count_settled q (handle _ _ _ ∷ es) = count_settled q es

abbrev pub count_pending : ℕ → Pending → ℕ
count_pending q [] = 0
count_pending q ((id, p) ∷ m) = one_if (p == q) + count_pending q m

pub count_settled-append :
    (q : ℕ) (es fs : List Effect)
    → count_settled q (es ++ fs) ≡ count_settled q es + count_settled q fs
count_settled-append q [] fs = omega arith
count_settled-append q (settle p _ ∷ es) fs = omega (arith, count_settled-append q es fs)
count_settled-append q (send _ ∷ es) fs = count_settled-append q es fs
count_settled-append q (protocol_error _ ∷ es) fs = count_settled-append q es fs
count_settled-append q (on_event _ _ _ ∷ es) fs = count_settled-append q es fs
count_settled-append q (handle _ _ _ ∷ es) fs = count_settled-append q es fs

pub count-delete :
    (q : ℕ) (id : String) (m : Pending) {p : ℕ}
    → lookup id m ≡ some p
    → count_pending q m ≡ one_if (p == q) + count_pending q (delete id m)
unfolding lookup delete
count-delete q id [] h = cc
count-delete q id ((j, r) ∷ m) {p} h = ground (arith, count-delete q id m {p = p})

pub insert-absent :
    (id : String) (p : ℕ) (m : Pending) → lookup id m ≡ none → insert id p m ≡ m ++ (id, p) ∷ []
unfolding lookup insert
insert-absent id p [] h = refl
insert-absent id p ((j, r) ∷ m) h = ground (arith, insert-absent id p m)

pub count_pending-append :
    (q : ℕ) (m n : Pending) → count_pending q (m ++ n) ≡ count_pending q m + count_pending q n
count_pending-append q [] n = omega arith
count_pending-append q (x ∷ m) n = omega (arith, count_pending-append q m n)

pub count-reject_all :
    (q : ℕ) (e : BridgeError) (m : Pending) → count_settled q (reject_all e m) ≡ count_pending q m
unfolding reject_all
count-reject_all q e [] = refl
count-reject_all q e (x ∷ m) = ap (λ n. one_if (x.1 == q) + n) (count-reject_all q e m)

abbrev pub key : Timer → String × ℕ
key t = (t.id, t.promise)

-- No entry with this id or this promise.
abbrev pub Fresh : String × ℕ → Pending → Type 0
Fresh x = All λ y. (y.0 ≢ x.0) × (y.1 ≢ x.1)

abbrev pub Distinct : Pending → Type 0
Distinct [] = Unit
Distinct (x ∷ m) = Fresh x m × Distinct m

-- The timers are those of the pending requests, in order; ids and promises are distinct; and
-- promises are numbered below the next.
pub record IsConsistent (peer : RpcPeer) : Type 0 where
  pub matched : map key peer.timers ≡ peer.pending
  pub distinct : Distinct peer.pending
  pub below : All (λ x. x.1 < peer.next_promise) peer.pending

pub Fresh-lookup :
    (x : String × ℕ) (id : String) (m : Pending) {p : ℕ}
    → Fresh x m
    → lookup id m ≡ some p
    → p ≢ x.1
unfolding lookup
Fresh-lookup x id [] f h = cc
Fresh-lookup x id (y ∷ m) {p} f h = ground (arith, Fresh-lookup x id m {p = p} f.1)

pub Fresh-lookup_id :
    (x : String × ℕ) (id : String) (m : Pending) {p : ℕ}
    → Fresh x m
    → lookup id m ≡ some p
    → x.0 ≢ id
unfolding lookup
Fresh-lookup_id x id [] f h = cc
Fresh-lookup_id x id (y ∷ m) {p} f h =
    ground (arith, eq_iff y.0 id, Fresh-lookup_id x id m {p = p} f.1)

pub delete-clear :
    (id : String) (p : ℕ) (ts : List Timer)
    → Distinct (map key ts)
    → lookup id (map key ts) ≡ some p
    → map key (clear_timeout p ts) ≡ delete id (map key ts)
unfolding lookup delete clear_timeout
delete-clear id p [] d h = cc
delete-clear id p (t ∷ ts) d h =
    ground (arith, delete-clear id p ts d.1, Fresh-lookup (key t) id (map key ts) {p = p} d.0)

pub Fresh-delete : (x : String × ℕ) (id : String) (m : Pending) → Fresh x m → Fresh x (delete id m)
unfolding delete
Fresh-delete x id [] f = tt
Fresh-delete x id (y ∷ m) f = ground (arith, Fresh-delete x id m f.1)

pub Distinct-delete : (id : String) (m : Pending) → Distinct m → Distinct (delete id m)
unfolding delete
Distinct-delete id [] d = tt
Distinct-delete id (y ∷ m) d = ground (arith, Distinct-delete id m d.1, Fresh-delete y id m d.0)

pub below-delete :
    (n : ℕ) (id : String) (m : Pending) → All (λ x. x.1 < n) m → All (λ x. x.1 < n) (delete id m)
unfolding delete
below-delete n id [] b = tt
below-delete n id (y ∷ m) b = ground (arith, below-delete n id m b.1)

pub Distinct-append :
    (id : String) (p : ℕ) (m : Pending)
    → lookup id m ≡ none
    → All (λ x. x.1 < p) m
    → Distinct m
    → Distinct (m ++ (id, p) ∷ [])
unfolding lookup
Distinct-append id p [] h b d = (tt, tt)
Distinct-append id p ((j, q) ∷ m) h b d = (
  Fresh-append (j, q) m d.0 (ground (arith, eq_iff j id)) (omega arith),
  Distinct-append id p m (ground arith) b.1 d.1,
)
  where
    Fresh-append :
        (x : String × ℕ) (m : Pending)
        → Fresh x m
        → id ≢ x.0
        → p ≢ x.1
        → Fresh x (m ++ (id, p) ∷ [])
    Fresh-append x [] f a b = ((a, b), tt)
    Fresh-append x (y ∷ m) f a b = (f.0, Fresh-append x m f.1 a b)

pub below-append :
    (id : String) (p : ℕ) (m : Pending)
    → All (λ x. x.1 < p) m
    → All (λ x. x.1 < suc p) (m ++ (id, p) ∷ [])
below-append id p [] b = omega arith
below-append id p (x ∷ m) b = (omega arith, below-append id p m b.1)

pub below-suc : (p : ℕ) (m : Pending) → All (λ x. x.1 < p) m → All (λ x. x.1 < suc p) m
below-suc p [] b = tt
below-suc p (x ∷ m) b = (omega arith, below-suc p m b.1)
