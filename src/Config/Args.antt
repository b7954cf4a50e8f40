-- ===== src/Config/Args.antt =====
-- src/config.rs: the command line.
use z8s.Base.{
  ℕ, Bool, true, false, ◌||◌, Option, none, some, List, [], ◌∷◌, ◌++◌, map, ltb, ◌==◌,
  if◌then◌else◌,
}
use z8s.Base.Text.{Text, codes, text_eq}
use z8s.Base.Text.Split.{split, split_once}
use z8s.Base.Numbers.{parse_uint}
use z8s.Net.Ipv4.{from_octets}
use z8s.Config.{Config}

-- The four bytes of an address, which may have any number of leading zeros.
abbrev pub four_bytes : List (Option ℕ) → Option ℕ
four_bytes (some a ∷ some b ∷ some c ∷ some d ∷ []) = some (from_octets a b c d)
four_bytes _ = none

abbrev pub parse_u8 : Text → Option ℕ
parse_u8 s = parse_uint 255 s

abbrev pub with_address : Text → Option ℕ → Option (ℕ × ℕ)
with_address ip_str none = none
with_address ip_str (some prefix) =
    if ltb 32 prefix then none else elim (four_bytes (map parse_u8 (split b'.' ip_str))) [
      | none ↦ none
      | some ip ↦ some (ip, prefix)
    ]

abbrev pub cidr_parts : Option (Text × Text) → Option (ℕ × ℕ)
cidr_parts none = none
cidr_parts (some (ip_str, prefix_str)) = with_address ip_str (parse_u8 prefix_str)

-- `parse_cidr`: the address is not masked.
unfoldable pub parse_cidr : Text → Option (ℕ × ℕ)
unfolding split split_once parse_uint
parse_cidr s = cidr_parts (split_once b'/' s)

-- `exit` has the status that the process ends with.
pub data Outcome : Type 0 where
  ok : Config → Outcome
  exit : ℕ → Outcome

infixl 5 ◌>>=◌
abbrev pub ◌>>=◌ : Outcome → (Config → Outcome) → Outcome
ok c >>= f = f c
exit n >>= f = exit n

-- `unwrap_or_else(|_| exit(1))`.
abbrev pub or_exit {ℓ} : {A : Type ℓ} → Option A → (A → Config) → Outcome
or_exit none f = exit 1
or_exit (some a) f = ok (f a)

-- `trim_start_matches('.')`.
unfoldable pub trim_dots : Text → Text
trim_dots [] = []
trim_dots (c ∷ s) = let rest = trim_dots s in if c == b'.' then rest else c ∷ s

abbrev pub push_pair : Option (Text × Text) → List (Text × Text) → List (Text × Text)
push_pair none pairs = pairs
push_pair (some p) pairs = p ∷ pairs

unfoldable pub peer_pairs : List Text → List (Text × Text)
peer_pairs [] = []
peer_pairs (pair ∷ pairs) = push_pair (split_once b'=' pair) (peer_pairs pairs)

abbrev pub is_help : Text → Bool
is_help arg = text_eq arg (codes "--help") || text_eq arg (codes "-h")

-- The options, each of which takes a value.
pub data Flag : Type 0 where
  port service_cidr cluster_domain dns_port manifests_dir data_dir pod_cidr node_name node_ip peers
        join_token vnet_cidr_size :
      Flag

abbrev pub flag_of : Text → Option Flag
flag_of arg =
    if text_eq arg (codes "--port")
    then some port
    else if text_eq arg (codes "--service-cidr")
    then some service_cidr
    else if text_eq arg (codes "--cluster-domain")
    then some cluster_domain
    else if text_eq arg (codes "--dns-port")
    then some dns_port
    else if text_eq arg (codes "--manifests-dir")
    then some manifests_dir
    else if text_eq arg (codes "--data-dir")
    then some data_dir
    else if text_eq arg (codes "--pod-cidr")
    then some pod_cidr
    else if text_eq arg (codes "--node-name")
    then some node_name
    else if text_eq arg (codes "--node-ip")
    then some node_ip
    else if text_eq arg (codes "--peers")
    then some peers
    else if text_eq arg (codes "--join-token")
    then some join_token
    else if text_eq arg (codes "--vnet-cidr-size")
    then some vnet_cidr_size
    else none

-- What an option does with its value.
unfoldable pub set_option : Flag → Text → Config → Outcome
unfolding parse_uint parse_cidr trim_dots split peer_pairs
set_option port v cfg = or_exit (parse_uint 65535 v) (λ p. record cfg { api_port = p })
set_option service_cidr v cfg =
    or_exit (parse_cidr v) (λ c. record cfg { service_cidr_base = c.0; service_cidr_prefix = c.1 })
set_option cluster_domain v cfg = ok (record cfg { cluster_domain = trim_dots v })
set_option dns_port v cfg = or_exit (parse_uint 65535 v) (λ p. record cfg { dns_port = some p })
set_option manifests_dir v cfg = ok (record cfg { manifests_dir = v })
set_option data_dir v cfg = ok (record cfg { data_dir = some v })
set_option pod_cidr v cfg = or_exit (parse_cidr v) (λ _. record cfg { pod_cidr = v })
set_option node_name v cfg = ok (record cfg { node_name = v })
set_option node_ip v cfg = ok (record cfg { node_ip = v })
set_option peers v cfg = ok (record cfg { peers = cfg.peers ++ peer_pairs (split b',' v) })
set_option join_token v cfg = ok (record cfg { join_token = some v })
set_option vnet_cidr_size v cfg =
    or_exit (parse_uint 255 v) (λ n. record cfg { vnet_cidr_size = n })

-- An argument that is the last one: an option without its value changes nothing.
abbrev pub last_arg : Bool → Option Flag → Config → Outcome
last_arg true f cfg = exit 0
last_arg false none cfg = exit 1
last_arg false (some f) cfg = ok cfg

abbrev pub one_arg : Bool → Option Flag → Text → Config → Outcome
one_arg true f v cfg = exit 0
one_arg false none v cfg = exit 1
one_arg false (some f) v cfg = set_option f v cfg

-- The loop of `from_args`, over the arguments behind the program's name.
unfoldable pub from_args : List Text → Config → Outcome
unfolding set_option
from_args [] cfg = ok cfg
from_args (arg ∷ []) cfg = last_arg (is_help arg) (flag_of arg) cfg
from_args (arg ∷ v ∷ args) cfg =
    one_arg (is_help arg) (flag_of arg) v cfg >>= λ cfg'. from_args args cfg'
