-- ===== src/Config/Given.antt =====
-- src/config.rs: every valid configuration can be given on the command line.
use z8s.Base.{
  ℕ, ◌/◌, ◌%◌, ◌^◌, ◌≤◌, ◌<◌, ◌≡◌, refl, ◌∙◌, ◌≢◌, Option, none, some, List, [], ◌∷◌, ◌++◌, map,
  arith, All, All-append,
}
use z8s.Base.Text.{Text, codes, text_eq}
use z8s.Base.Text.Split.{
  split, join, Lacks, split-join, split_once-append, split-append, split-Lacks,
}
use z8s.Base.Numbers.{decimal}
use z8s.Base.Numbers.Decimal.{parse_uint-decimal, decimal-Lacks}
use z8s.Net.Ipv4.{from_octets}
use z8s.Config.{Config, dotted, default_config}
use z8s.Config.Args.{
  ◌>>=◌, parse_cidr, parse_u8, Outcome, ok, exit, trim_dots, peer_pairs, from_args, set_option,
  Flag, data_dir, dns_port, join_token, peers, port, service_cidr, cluster_domain, manifests_dir,
  pod_cidr, vnet_cidr_size, node_name, node_ip,
}

-- The value that stands for a network of services.
abbrev pub cidr_text : ℕ → ℕ → Text
cidr_text base prefix = dotted base ++ (b'/' ∷ decimal prefix)

dotted-bytes :
    (base : ℕ)
    → base < 2 ^ 32
    → from_octets (base / 2 ^ 24 % 256) (base / 2 ^ 16 % 256) (base / 2 ^ 8 % 256) (base % 256)
      ≡ base
dotted-bytes base h = omega arith

dotted-split :
    (base : ℕ)
    → split b'.' (dotted base)
      ≡ decimal (base / 2 ^ 24 % 256)
        ∷ decimal (base / 2 ^ 16 % 256)
        ∷ decimal (base / 2 ^ 8 % 256)
        ∷ decimal (base % 256)
        ∷ []
dotted-split base = rw (
  split-append b'.' (decimal (base / 2 ^ 24 % 256))
      (decimal (base / 2 ^ 16 % 256)
        ++ (b'.' ∷ (decimal (base / 2 ^ 8 % 256) ++ (b'.' ∷ decimal (base % 256)))))
      (decimal-Lacks b'.' (base / 2 ^ 24 % 256) refl),
  split-append b'.' (decimal (base / 2 ^ 16 % 256))
      (decimal (base / 2 ^ 8 % 256) ++ (b'.' ∷ decimal (base % 256)))
      (decimal-Lacks b'.' (base / 2 ^ 16 % 256) refl),
  split-append b'.' (decimal (base / 2 ^ 8 % 256)) (decimal (base % 256))
      (decimal-Lacks b'.' (base / 2 ^ 8 % 256) refl),
  split-Lacks b'.' (decimal (base % 256)) (decimal-Lacks b'.' (base % 256) refl),
)

parse_byte : (n : ℕ) → parse_u8 (decimal (n % 256)) ≡ some (n % 256)
parse_byte n = parse_uint-decimal 255 (n % 256) (omega arith) (omega arith)

Lacks-between : (c : ℕ) (s t : Text) → Lacks c s → Lacks c t → b'.' ≢ c → Lacks c (s ++ (b'.' ∷ t))
Lacks-between c s t hs ht h = All-append (λ x. x ≢ c) s (b'.' ∷ t) hs (h, ht)

dotted-Lacks : (base : ℕ) → Lacks b'/' (dotted base)
dotted-Lacks base =
    Lacks-between b'/' (decimal (base / 2 ^ 24 % 256))
      (decimal (base / 2 ^ 16 % 256)
        ++ (b'.' ∷ (decimal (base / 2 ^ 8 % 256) ++ (b'.' ∷ decimal (base % 256)))))
      (decimal-Lacks b'/' (base / 2 ^ 24 % 256) refl)
      (Lacks-between b'/' (decimal (base / 2 ^ 16 % 256))
        (decimal (base / 2 ^ 8 % 256) ++ (b'.' ∷ decimal (base % 256)))
        (decimal-Lacks b'/' (base / 2 ^ 16 % 256) refl)
        (Lacks-between b'/' (decimal (base / 2 ^ 8 % 256)) (decimal (base % 256))
          (decimal-Lacks b'/' (base / 2 ^ 8 % 256) refl) (decimal-Lacks b'/' (base % 256) refl)
          (omega arith))
        (omega arith))
      (omega arith)

-- A network of services is read back as it was written.
parse_cidr-cidr_text :
    (base prefix : ℕ)
    → base < 2 ^ 32
    → prefix ≤ 32
    → parse_cidr (cidr_text base prefix) ≡ some (base, prefix)
unfolding parse_cidr
parse_cidr-cidr_text base prefix hb hp =
    rw
      (
        split_once-append b'/' (dotted base) (decimal prefix) (dotted-Lacks base),
        parse_uint-decimal 255 prefix (omega arith) (omega arith),
        dotted-split base,
        parse_byte (base / 2 ^ 24),
        parse_byte (base / 2 ^ 16),
        parse_byte (base / 2 ^ 8),
        parse_byte base,
      )
      (ground (arith, dotted-bytes base hb))

abbrev pub flag_text : Flag → Text
flag_text port = codes "--port"
flag_text service_cidr = codes "--service-cidr"
flag_text cluster_domain = codes "--cluster-domain"
flag_text dns_port = codes "--dns-port"
flag_text manifests_dir = codes "--manifests-dir"
flag_text data_dir = codes "--data-dir"
flag_text pod_cidr = codes "--pod-cidr"
flag_text node_name = codes "--node-name"
flag_text node_ip = codes "--node-ip"
flag_text peers = codes "--peers"
flag_text join_token = codes "--join-token"
flag_text vnet_cidr_size = codes "--vnet-cidr-size"

abbrev pub Settings : Type 0
Settings = List (Flag × Text)

-- The arguments of a list of settings.
abbrev pub args_of : Settings → List Text
args_of [] = []
args_of ((f, v) ∷ settings) = flag_text f ∷ v ∷ args_of settings

abbrev set_all : Settings → Config → Outcome
set_all [] c = ok c
set_all ((f, v) ∷ settings) c = set_option f v c >>= λ c'. set_all settings c'

bind_ext :
    (o : Outcome) (f g : Config → Outcome) → ((c : Config) → f c ≡ g c) → (o >>= f) ≡ (o >>= g)
bind_ext (ok c) f g h = h c
bind_ext (exit n) f g h = refl

one_setting :
    (f : Flag) (v : Text) (args : List Text) (c : Config)
    → from_args (flag_text f ∷ v ∷ args) c ≡ (set_option f v c >>= λ c'. from_args args c')
unfolding from_args text_eq
one_setting port v args c = refl
one_setting service_cidr v args c = refl
one_setting cluster_domain v args c = refl
one_setting dns_port v args c = refl
one_setting manifests_dir v args c = refl
one_setting data_dir v args c = refl
one_setting pod_cidr v args c = refl
one_setting node_name v args c = refl
one_setting node_ip v args c = refl
one_setting peers v args c = refl
one_setting join_token v args c = refl
one_setting vnet_cidr_size v args c = refl

from_args-args_of :
    (settings : Settings) (c : Config) → from_args (args_of settings) c ≡ set_all settings c
from_args-args_of [] c = unfold from_args in refl
from_args-args_of ((f, v) ∷ settings) c =
    one_setting f v (args_of settings) c
    ∙ bind_ext (set_option f v c) (λ c'. from_args (args_of settings) c')
        (λ c'. set_all settings c') (λ c'. from_args-args_of settings c')

abbrev pub pair_text : Text × Text → Text
pair_text (name, ip) = name ++ (b'=' ∷ ip)

abbrev pub dns_settings : Option ℕ → Settings
dns_settings none = []
dns_settings (some p) = (dns_port, decimal p) ∷ []

abbrev pub text_settings : Flag → Option Text → Settings
text_settings f none = []
text_settings f (some v) = (f, v) ∷ []

abbrev pub peers_settings : List (Text × Text) → Settings
peers_settings [] = []
peers_settings (p ∷ ps) = (peers, join b',' (map pair_text (p ∷ ps))) ∷ []

-- The settings that give a configuration.
abbrev pub settings : Config → Settings
settings c =
    (port, decimal c.api_port)
    ∷ (service_cidr, cidr_text c.service_cidr_base c.service_cidr_prefix)
    ∷ (cluster_domain, c.cluster_domain)
    ∷ (manifests_dir, c.manifests_dir)
    ∷ (pod_cidr, c.pod_cidr)
    ∷ (vnet_cidr_size, decimal c.vnet_cidr_size)
    ∷ (node_name, c.node_name)
    ∷ (node_ip, c.node_ip)
    ∷ (dns_settings c.dns_port
        ++ (text_settings data_dir c.data_dir
            ++ (text_settings join_token c.join_token ++ peers_settings c.peers)))

abbrev IsShort : Option ℕ → Type 0
IsShort none = Unit {0}
IsShort (some p) = p < 2 ^ 16

-- What a peer may be: no comma, and no equals sign in the name.
abbrev pub IsPeer : Text × Text → Type 0
IsPeer (name, ip) = Lacks b'=' name × Lacks b',' (pair_text (name, ip))

-- Numbers within their types, a domain that does not begin with a dot, a network for pods that
-- parses, and peers that can be written.
pub record IsGivable (c : Config) : Type 0 where
  pub api_port_short : c.api_port < 2 ^ 16
  pub base_short : c.service_cidr_base < 2 ^ 32
  pub prefix_fits : c.service_cidr_prefix ≤ 32
  pub no_dot : trim_dots c.cluster_domain ≡ c.cluster_domain
  pub pod_network : ℕ × ℕ
  pub pod_parses : parse_cidr c.pod_cidr ≡ some pod_network
  pub size_short : c.vnet_cidr_size < 2 ^ 8
  pub dns_short : IsShort c.dns_port
  pub peers_fit : All IsPeer c.peers

peer_pairs-map : (ps : List (Text × Text)) → All IsPeer ps → peer_pairs (map pair_text ps) ≡ ps
unfolding peer_pairs
peer_pairs-map [] h = refl
peer_pairs-map ((name, ip) ∷ ps) ((hn, hp), h) =
    rw (split_once-append b'=' name ip hn, peer_pairs-map ps h)

texts_lack : (ps : List (Text × Text)) → All IsPeer ps → All (Lacks b',') (map pair_text ps)
texts_lack [] h = tt
texts_lack ((name, ip) ∷ ps) ((hn, hp), h) = (hp, texts_lack ps h)

module _ (c : Config) where
  -- The configuration with its optional parts as given.
  abbrev partly : Option ℕ → Option Text → Option Text → List (Text × Text) → Config
  partly dns dir token ps = record c {
    dns_port = dns;
    data_dir = dir;
    join_token = token;
    peers = ps;
  }

  set_dns :
      (dns : Option ℕ) (rest : Settings)
      → IsShort dns
      → set_all (dns_settings dns ++ rest) (partly none none none [])
        ≡ set_all rest (partly dns none none [])
  unfolding set_option
  set_dns none rest h = refl
  set_dns (some p) rest h = rw (parse_uint-decimal 65535 p (omega arith) (omega arith))

  set_dir :
      (dns : Option ℕ) (dir : Option Text) (rest : Settings)
      → set_all (text_settings data_dir dir ++ rest) (partly dns none none [])
        ≡ set_all rest (partly dns dir none [])
  unfolding set_option
  set_dir dns none rest = refl
  set_dir dns (some v) rest = refl

  set_token :
      (dns : Option ℕ) (dir token : Option Text) (rest : Settings)
      → set_all (text_settings join_token token ++ rest) (partly dns dir none [])
        ≡ set_all rest (partly dns dir token [])
  unfolding set_option
  set_token dns dir none rest = refl
  set_token dns dir (some v) rest = refl

  set_peers :
      (dns : Option ℕ) (dir token : Option Text) (ps : List (Text × Text))
      → All IsPeer ps
      → set_all (peers_settings ps) (partly dns dir token []) ≡ ok (partly dns dir token ps)
  unfolding set_option
  set_peers dns dir token [] h = refl
  set_peers dns dir token (p ∷ ps) h = rw (
    split-join b',' (pair_text p) (map pair_text ps) (texts_lack (p ∷ ps) h),
    peer_pairs-map (p ∷ ps) h,
  )

  required :
      (hostname ip : Option Text)
      → IsGivable c
      → set_all (settings c) (default_config hostname ip)
        ≡ set_all
            (dns_settings c.dns_port
              ++ (text_settings data_dir c.data_dir
                  ++ (text_settings join_token c.join_token ++ peers_settings c.peers)))
            (partly none none none [])
  unfolding set_option default_config
  required hostname ip g = rw (
    parse_uint-decimal 65535 c.api_port (omega (arith, g.api_port_short))
        (omega (arith, g.api_port_short)),
    parse_cidr-cidr_text c.service_cidr_base c.service_cidr_prefix g.base_short g.prefix_fits,
    g.no_dot,
    g.pod_parses,
    parse_uint-decimal 255 c.vnet_cidr_size (omega (arith, g.size_short))
        (omega (arith, g.size_short)),
  )

  -- Every configuration can be given on the command line: from the arguments that spell it, and
  -- whatever the environment says of the host's name and address, `from_args` makes exactly that
  -- configuration, if its numbers fit their types, its domain does not begin with a dot, its pod
  -- network can be read, and no peer has a comma, or an equals sign in its name.
  pub from_args-settings :
      (hostname ip : Option Text)
      → IsGivable c
      → from_args (args_of (settings c)) (default_config hostname ip) ≡ ok c
  from_args-settings hostname ip g =
      let p = peers_settings c.peers in
      let t = text_settings join_token c.join_token ++ p in
      let d = text_settings data_dir c.data_dir ++ t in
      from_args-args_of (settings c) (default_config hostname ip)
      ∙ (required hostname ip g
          ∙ (set_dns c.dns_port d g.dns_short
              ∙ (set_dir c.dns_port c.data_dir t
                  ∙ (set_token c.dns_port c.data_dir c.join_token p
                      ∙ set_peers c.dns_port c.data_dir c.join_token c.peers g.peers_fit))))
