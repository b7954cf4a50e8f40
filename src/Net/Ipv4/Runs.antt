-- ===== src/Net/Ipv4/Runs.antt =====
-- Concrete runs of `Ipv4Cidr`, and the theorems at concrete inputs.
use z8s.Base.{◌≡◌, refl, none, some}
use z8s.Base.Text.{codes}
use z8s.Base.Checked.{ok, sub32, shl1}
use z8s.Net.Ipv4.{Ipv4Cidr, parse, mask_off, host_count, from_octets}

-- 10.42.0.0/20
abbrev pods : Ipv4Cidr
pods = record { network = from_octets 10 42 0 0; prefix = 20 }

pods_parsed : parse (codes "10.42.3.7/20") ≡ ok (some pods)
unfolding parse mask_off
pods_parsed = refl

parse_rejects :
    (parse (codes "10.42.0.0/33") ≡ ok none)
    × (parse (codes "10.42.0/20") ≡ ok none)
    × (parse (codes "10.42.0.256/20") ≡ ok none)
    × (parse (codes "10.42.0.01/20") ≡ ok none)
    × (parse (codes "10.42.0.0") ≡ ok none)
unfolding parse mask_off
parse_rejects = (refl, refl, refl, refl, refl)

twelve_bits : host_count pods ≡ ok 4094
unfolding host_count sub32 shl1
twelve_bits = refl
