-- ===== src/Net/Pool/Expansion.antt =====
-- `expand` of src/netmux/pool.rs.
use z8s.Base.{ℕ, ◌+◌, ◌^◌, ◌<◌, ◌≡◌, ◌≢◌, refl, true, false, ◌||◌, arith}
use z8s.Base.Set
use z8s.Base.Set.Ranges.{in_range, insert_range, contains-insert_range, insert_range-Above}
use z8s.Base.Set.{IsAscending}
use z8s.Base.Checked.{ok, u32_size, add32_ok, sub32_ok, shl1_ok}
use z8s.Net.Ipv4.{Ipv4Cidr}
use z8s.Net.Ipv4.Parsing.{Fits, bits}
use z8s.Net.Pool.{IpPool, expand}
use z8s.Net.Pool.Laws.{fill-insert_range}

-- The first address after the block of a CIDR.
abbrev pub end_of : Ipv4Cidr → ℕ
end_of c = c.network + 2 ^ bits c

module _ (p : IpPool) (c : Ipv4Cidr) (old : Fits p.cidr) (below : end_of p.cidr < u32_size)
    (new : Fits c) where
  abbrev grown : IpPool
  grown = record p { free = insert_range (2 ^ bits c) (c.network + 0) p.free }

  expand_adjacent : end_of p.cidr ≡ c.network → expand p c ≡ ok (grown, true)
  unfolding expand
  expand_adjacent e =
      rw
        (
          sub32_ok 32 p.cidr.prefix old.prefix_le,
          shl1_ok (bits p.cidr) (omega (arith, old.prefix_pos)),
          sub32_ok 32 c.prefix new.prefix_le,
          shl1_ok (bits c) (omega (arith, new.prefix_pos)),
          add32_ok p.cidr.network (2 ^ bits p.cidr) below,
        )
        (ground (arith, fill-insert_range (2 ^ bits c) 0 c.network p.free, new.within))

  expand_apart : end_of p.cidr ≢ c.network → expand p c ≡ ok (p, false)
  unfolding expand
  expand_apart e =
      rw
        (
          sub32_ok 32 p.cidr.prefix old.prefix_le,
          shl1_ok (bits p.cidr) (omega (arith, old.prefix_pos)),
          sub32_ok 32 c.prefix new.prefix_le,
          shl1_ok (bits c) (omega (arith, new.prefix_pos)),
          add32_ok p.cidr.network (2 ^ bits p.cidr) below,
        )
        (ground arith)

  -- `expand` is refused, with the pool as it was, unless the new CIDR starts where the pool's own
  -- CIDR ends. Otherwise the new block's addresses, first and last included, and no others become
  -- free, the free list stays ascending, and the pool keeps its old CIDR.
  pub expand_lem :
      (end_of p.cidr ≢ c.network → expand p c ≡ ok (p, false))
      × (end_of p.cidr ≡ c.network
          → IsAscending p.free
          → (p' : IpPool) × (expand p c ≡ ok (p', true))
            × (p'.cidr ≡ p.cidr)
            × IsAscending p'.free
            × ((x : ℕ)
                → Set.contains p'.free x
                  ≡ (in_range (2 ^ bits c) c.network x || Set.contains p.free x)))
  expand_lem = (
    expand_apart,
    λ e asc. (
      grown,
      expand_adjacent e,
      refl,
      insert_range-Above (2 ^ bits c) (c.network + 0) 0 p.free (omega arith) asc,
      λ x. ground (arith, contains-insert_range (2 ^ bits c) (c.network + 0) x p.free),
    ),
  )

-- The pool's CIDR does not grow with it: whatever happened in between, expanding by the same CIDR
-- again succeeds, and then all of its addresses are free, those that were handed out included.
pub expand_again :
    (p q : IpPool) (c : Ipv4Cidr)
    → Fits p.cidr
    → end_of p.cidr < u32_size
    → Fits c
    → end_of p.cidr ≡ c.network
    → q.cidr ≡ p.cidr
    → (p' : IpPool) × (q' : IpPool) × (expand p c ≡ ok (p', true))
      × (expand q c ≡ ok (q', true))
      × ((x : ℕ) → in_range (2 ^ bits c) c.network x ≡ true → Set.contains q'.free x ≡ true)
expand_again p q c old below new e same =
    let old' : Fits q.cidr = rw same old in
    let below' : end_of q.cidr < u32_size = rw same below in
    (
      grown p c old below new,
      grown q c old' below' new,
      expand_adjacent p c old below new e,
      expand_adjacent q c old' below' new (rw same e),
      λ x h. ground (arith, contains-insert_range (2 ^ bits c) (c.network + 0) x q.free),
    )
