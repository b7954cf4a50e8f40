-- ===== src/Net/Mux/Release.antt =====
-- What src/netmux/mod.rs gives back, and to which pools.
use z8s.Base.{ℕ, ◌^◌, ◌≡◌, refl, ◌≢◌, Bool, true, false, some, [], ◌∷◌, ◌++◌, arith, All}
use z8s.Base.Text.{Text, text_eq_refl, text_eq_iff}
use z8s.Base.Dict
use z8s.Base.Dict.{Dict, get-put}
use z8s.Base.Set
use z8s.Base.Set.{IsAscending, contains-insert}
use z8s.Base.Set.Ranges.{in_range}
use z8s.Base.Checked.{ok}
use z8s.Net.Ipv4.{Ipv4Cidr, parse}
use z8s.Net.Ipv4.Parsing.{Fits, IsMasked, bits, parse-Fits, contains-in_range}
use z8s.Net.Pool
use z8s.Net.Pool.{IpPool}
use z8s.Net.Pool.Laws.{usable, new-usable}
use z8s.Net.Mux.{NetMux, release_subnets, release_ip, detach_pod, register_subnet_cidr}

-- The block of the pool's CIDR has the address.
abbrev pub holds : IpPool → ℕ → Bool
holds p ip = in_range (2 ^ bits p.cidr) p.cidr.network ip

-- Every subnet pool is over a CIDR as `parse` returns it.
abbrev pub AreParsed : Dict IpPool → Type 0
AreParsed pools = All (λ e. Fits e.1.cidr × IsMasked e.1.cidr) pools

abbrev pub NoneHolds : ℕ → Dict IpPool → Type 0
NoneHolds ip pools = All (λ e. holds e.1 ip ≡ false) pools

pub release_subnets_none :
    (ip : ℕ) (pools : Dict IpPool)
    → AreParsed pools
    → NoneHolds ip pools
    → release_subnets ip pools ≡ ok pools
unfolding release_subnets
release_subnets_none ip [] v h = refl
release_subnets_none ip ((name, p) ∷ pools) ((f, k), v) (h, hs) =
    rw (contains-in_range p.cidr ip f k, h, release_subnets_none ip pools v hs)

release_subnets_first :
    (ip : ℕ) (before : Dict IpPool) (name : Text) (p : IpPool) (after : Dict IpPool)
    → AreParsed before
    → NoneHolds ip before
    → Fits p.cidr
    → IsMasked p.cidr
    → holds p ip ≡ true
    → release_subnets ip (before ++ ((name, p) ∷ after))
      ≡ ok (before ++ ((name, Pool.release p ip) ∷ after))
unfolding release_subnets
release_subnets_first ip [] name p after v hs f k h = rw (contains-in_range p.cidr ip f k, h)
release_subnets_first ip ((other, q) ∷ before) name p after ((g, l), v) (no_q, hs) f k h =
    rw (
      contains-in_range q.cidr ip g l,
      no_q,
      release_subnets_first ip before name p after v hs f k h,
    )

released_free : (p : IpPool) (ip : ℕ) → Set.contains (Pool.release p ip).free ip ≡ true
unfolding Pool.release
released_free p ip = ground (arith, contains-insert ip ip p.free)

-- Detaching a pod whose address lies in the block of a subnet, the first that has it, makes the
-- address free in that subnet's pool and in the pool of the pod CIDR as well: two later pods can
-- be given it. The other subnet pools stay as they are.
pub detach_frees_twice :
    (m : NetMux) (ip : ℕ) (before : Dict IpPool) (name : Text) (p : IpPool) (after : Dict IpPool)
    → m.subnet_pools ≡ before ++ ((name, p) ∷ after)
    → AreParsed before
    → NoneHolds ip before
    → Fits p.cidr
    → IsMasked p.cidr
    → holds p ip ≡ true
    → (m' : NetMux) × (detach_pod m ip ≡ ok m')
      × (m'.subnet_pools ≡ before ++ ((name, Pool.release p ip) ∷ after))
      × (Set.contains (Pool.release p ip).free ip ≡ true)
      × (Set.contains m'.pool.free ip ≡ true)
unfolding detach_pod release_ip
detach_frees_twice m ip before name p after e v hs f k h = (
  record m {
    pool = Pool.release m.pool ip;
    subnet_pools = before ++ ((name, Pool.release p ip) ∷ after);
  },
  rw (e, release_subnets_first ip before name p after v hs f k h),
  refl,
  released_free p ip,
  released_free m.pool ip,
)

-- Registering a subnet by a CIDR that parses succeeds, and leaves a pool under its name in which
-- every usable address is free, whatever was handed out under that name before. No other subnet's
-- pool changes.
pub register_resets :
    (m : NetMux) (name cidr_str : Text) (c : Ipv4Cidr)
    → parse cidr_str ≡ ok (some c)
    → (m' : NetMux) × (p : IpPool) × (register_subnet_cidr m name cidr_str ≡ ok (m', true))
      × (Dict.get name m'.subnet_pools ≡ some p)
      × ((x : ℕ) → Set.contains p.free x ≡ usable c x)
      × ((other : Text)
          → name ≢ other
          → Dict.get other m'.subnet_pools ≡ Dict.get other m.subnet_pools)
unfolding register_subnet_cidr
register_resets m name cidr_str c e =
    let (p, made, same, asc, free) = new-usable c (parse-Fits cidr_str c e).0 in
    let pools : Dict IpPool = Dict.put name p m.subnet_pools in
    (
      record m { subnet_pools = pools },
      p,
      rw (e, made),
      rw (get-put name name p m.subnet_pools, text_eq_refl name),
      free,
      λ other ne. ground (arith, get-put name other p m.subnet_pools, text_eq_iff name other, ne),
    )
