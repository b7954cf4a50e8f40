-- ===== src/Net/Pool/Leases.antt =====
-- Any sequence of allocations and releases of src/netmux/pool.rs, as a step relation.
use z8s.Base.{ℕ, ◌+◌, ◌≡◌, Bool, true, false, some, List, [], ◌∷◌, ◌==◌, arith}
use z8s.Base.Set
use z8s.Base.Set.{IsAscending, contains-insert, insert-Above}
use z8s.Base.Checked.{ok}
use z8s.Net.Ipv4.{Ipv4Cidr}
use z8s.Net.Ipv4.Parsing.{Fits}
use z8s.Net.Pool.{IpPool, new, allocate, release}
use z8s.Net.Pool.Laws.{usable, new-usable, allocate_lem, Allocates, release_lem}

-- A pool, and the addresses that its clients hold.
pub record Leases : Type 0 where
  pub pool : IpPool
  pub held : List ℕ

-- A client takes an address, or gives back one that it holds.
pub data Step (s : Leases) : Leases → Type 0 where
  take :
      (ip : ℕ) (p' : IpPool)
      → allocate s.pool ≡ (some ip, p')
      → Step s (record { pool = p'; held = ip ∷ s.held })
  give :
      (ip : ℕ)
      → Set.contains s.held ip ≡ true
      → Step s (record { pool = release s.pool ip; held = Set.remove ip s.held })

pub data Reach (s : Leases) : Leases → Type 0 where
  here : Reach s s
  next : {t u : Leases} → Reach s t → Step t u → Reach s u

abbrev bit : Bool → ℕ
bit true = 1
bit false = 0

abbrev pub count : ℕ → List ℕ → ℕ
count x [] = 0
count x (y ∷ ys) = bit (y == x) + count x ys

-- Each usable address is free, or held once, and no other address is either.
pub record IsSound (c : Ipv4Cidr) (s : Leases) : Type 0 where
  pub ascending : IsAscending s.pool.free
  pub one_place : (x : ℕ) → count x s.held + bit (Set.contains s.pool.free x) ≡ bit (usable c x)

count-remove :
    (ip x : ℕ) (held : List ℕ)
    → Set.contains held ip ≡ true
    → count x (Set.remove ip held) + bit (ip == x) ≡ count x held
unfolding Set.remove
count-remove ip x [] h = absurd (ground arith)
count-remove ip x (y ∷ ys) h = ground (arith, count-remove ip x ys)

Step-IsSound : {c : Ipv4Cidr} {s t : Leases} → Step s t → IsSound c s → IsSound c t
Step-IsSound {c} {s} (take ip p' e) v =
    let a : Allocates s.pool (some ip, p') = rw e at (allocate_lem s.pool v.ascending) in
    record { ascending = a.4; one_place = λ x. ground (arith, v.one_place x, a.0, a.2 x) }
Step-IsSound {c} {s} (give ip h) v =
    let r = release_lem s.pool ip v.ascending in
    record {
      ascending = r.0;
      one_place = λ x. ground (
        arith,
        v.one_place x,
        v.one_place ip,
        r.1 x,
        count-remove ip x s.held h,
        count-remove ip ip s.held h,
      );
    }

Reach-IsSound : {c : Ipv4Cidr} {s t : Leases} → Reach s t → IsSound c s → IsSound c t
Reach-IsSound here v = v
Reach-IsSound (next r st) v = Step-IsSound st (Reach-IsSound r v)

-- From a new pool over a CIDR that fits, whatever sequence of allocations and releases of held
-- addresses follows: each usable address is either free or held by exactly one client, and no
-- other address is free or held.
pub leases-IsSound :
    (c : Ipv4Cidr) (p : IpPool) (t : Leases)
    → Fits c
    → new c ≡ ok p
    → Reach (record { pool = p; held = [] }) t
    → IsSound c t
leases-IsSound c p t f e r =
    let (q, eq, same, asc, free) = new-usable c f in
    let pq : q ≡ p = cc in
    Reach-IsSound r
      (record { ascending = rw pq at asc; one_place = λ x. ground (arith, pq, free x) })
