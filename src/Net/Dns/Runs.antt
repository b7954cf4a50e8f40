-- ===== src/Net/Dns/Runs.antt =====
-- Concrete runs of the DNS server, and the theorems at concrete inputs.
use z8s.Base.{
  ℕ, zero, suc, ◌+◌, ◌<◌, ◌≡◌, refl, ◌≢◌, true, ◌&&◌, Option, none, some, List, [], ◌∷◌, ◌++◌, map,
  arith, leb, if◌then◌else◌, length, get_elem?, All,
}
use z8s.Base.Text.{Text, codes, trim_end, text_eq}
use z8s.Base.Text.Utf8.{IsAscii, from_utf8-IsAscii}
use z8s.Base.Text.Split.{join, split}
use z8s.Base.Dict
use z8s.Base.Dict.{Dict}
use z8s.Base.Numbers.{parse_uint}
use z8s.Resource.{ObjectMeta, ServiceSpec, Service, service, uid, kind, name, namespace, metadata}
use z8s.Resource.Store.{ResourceStore, ResourceTracker, running, get}
use z8s.Resource.Store.Laws.{IsKeyed}
use z8s.Net.Dns.{Bytes, part_of, parse_name, encode_name, be16, encode_labels}
use z8s.Net.Dns.Names.{IsLabel, spell, parse_name-encode_name}
use z8s.Net.Dns.Endless.{Leads, parse_name_endless}
use z8s.Net.Dns.Resolve.{cluster_ip, resolve_service, resolve_spec, parse_ipv4}
use z8s.Net.Dns.Resolve.Services.{service_resolves}
use z8s.Net.Dns.Query.{handle_query}
use z8s.Net.Dns.Query.Replies.{Outcome, handle_query_outcomes}
use z8s.Net.Dns.Query.Lookups.{
  answer_bytes, address_record, query_for, question_for, service_answered,
}

-- Lower case on ASCII.
abbrev lower_letter : ℕ → ℕ
lower_letter c = if leb b'A' c && leb c b'Z' then c + 32 else c

abbrev lower : Text → Text
lower s = map lower_letter s

abbrev domain : Text
domain = codes "cluster.local"

abbrev labels : List Text
labels = codes "web" ∷ codes "prod" ∷ codes "svc" ∷ codes "cluster" ∷ codes "local" ∷ []

ascii-IsLabel :
    (l : Text) → 0 < length l → length l < 0xC0 → All (λ c. c ≢ b'.') l → IsAscii l → IsLabel l
ascii-IsLabel l some_byte short dots ascii = (some_byte, short, dots, from_utf8-IsAscii l ascii)

are_labels : All IsLabel labels
are_labels = (
  ascii-IsLabel (codes "web") (omega arith) (omega arith) (omega arith) (omega arith),
  (
    ascii-IsLabel (codes "prod") (omega arith) (omega arith) (omega arith) (omega arith),
    (
      ascii-IsLabel (codes "svc") (omega arith) (omega arith) (omega arith) (omega arith),
      (
        ascii-IsLabel (codes "cluster") (omega arith) (omega arith) (omega arith) (omega arith),
        (ascii-IsLabel (codes "local") (omega arith) (omega arith) (omega arith) (omega arith), tt),
      ),
    ),
  ),
)

parse_name-encode_name_example :
    parse_name lower ((1 ∷ []) ++ (encode_name (join b'.' labels) ++ (9 ∷ []))) 1
    ≡ some (join b'.' (map lower labels), 1 + length (encode_name (join b'.' labels)))
parse_name-encode_name_example =
    parse_name-encode_name lower labels (1 ∷ []) (9 ∷ []) are_labels (omega arith)

upper-IsLabel : IsLabel (codes "API")
upper-IsLabel = ascii-IsLabel (codes "API") (omega arith) (omega arith) (omega arith) (omega arith)

lower-IsLabel : IsLabel (codes "net")
lower-IsLabel = ascii-IsLabel (codes "net") (omega arith) (omega arith) (omega arith) (omega arith)

-- `API` and a pointer to `net` at the start of the packet.
abbrev packet : Bytes
packet = 3 ∷ 110 ∷ 101 ∷ 116 ∷ 0 ∷ 3 ∷ 65 ∷ 80 ∷ 73 ∷ 192 ∷ 0 ∷ 7 ∷ []

packet_near :
    packet
    ≡ (3 ∷ 110 ∷ 101 ∷ 116 ∷ 0 ∷ []) ++ (spell (codes "API" ∷ []) ++ (be16 0xC000 ++ (7 ∷ [])))
unfolding spell
packet_near = refl

packet_far :
    packet
    ≡ [] ++ (encode_name (join b'.' (codes "net" ∷ [])) ++ (3 ∷ 65 ∷ 80 ∷ 73 ∷ 192 ∷ 0 ∷ 7 ∷ []))
unfolding encode_name join split encode_labels
packet_far = refl

-- A pointer to itself.
abbrev circle : Bytes
circle = 192 ∷ 0 ∷ []

abbrev AtStart : ℕ → Type 0
AtStart zero = Unit {0}
AtStart (suc n) = ⊥

circle-Leads :
    (cur : ℕ) → AtStart cur → Leads circle AtStart cur (part_of circle cur (get_elem? circle cur))
circle-Leads zero at = tt
circle-Leads (suc n) at = absurd at

parse_name_endless_example : parse_name lower circle 0 ≡ none
parse_name_endless_example = parse_name_endless lower circle AtStart circle-Leads 0 tt

abbrev spec : ServiceSpec
spec = record {
  type_ = none;
  cluster_ip = some (codes "10.43.0.7");
  external_name = none;
  selector = none;
  ports = none;
}

abbrev meta_in : Text → ObjectMeta
meta_in ns = record {
  name = some (codes "web");
  namespace = some ns;
  uid = none;
  labels = none;
  owner_references = none;
}

abbrev web : Service
web = record { metadata = meta_in (codes "prod"); spec = some spec }

-- A service of the same name in another namespace.
abbrev other_web : Service
other_web = record {
  metadata = meta_in (codes "test");
  spec = some (record spec { cluster_ip = none });
}

abbrev tracked : Service → ResourceTracker
tracked s = record { resource = service s; state = running; last_updated = 3 }

abbrev store : ResourceStore
store = (codes "Service/test/web", tracked other_web) ∷ (codes "Service/prod/web", tracked web) ∷ []

different : codes "Service/test/web" ≢ codes "Service/prod/web"
different e = absurd (ground (arith, e))

keyed : IsKeyed store
unfolding uid kind name namespace metadata
keyed = (refl, (different, tt), (refl, tt, tt))

in_store : get (uid (service web)) store ≡ some (tracked web)
unfolding get Dict.get uid kind name namespace metadata text_eq
in_store = refl

trimmed : trim_end b'.' domain ≡ domain
unfolding trim_end
trimmed = refl

service_resolves_example :
    resolve_service domain (codes "web.prod.svc.cluster.local") store ≡ resolve_spec spec
service_resolves_example =
    service_resolves domain (codes "web") (codes "prod") web spec (tracked web) store (omega arith)
      (omega arith) (λ e. ground (arith, e)) (λ e. ground (arith, e)) trimmed keyed refl refl refl
      refl in_store

resolved : resolve_service domain (join b'.' labels) store ≡ cluster_ip (codes "10.43.0.7")
unfolding join text_eq
resolved =
    service_resolves domain (codes "web") (codes "prod") web spec (tracked web) store (omega arith)
      (omega arith) (λ e. ground (arith, e)) (λ e. ground (arith, e)) trimmed keyed refl refl refl
      refl in_store

address : parse_ipv4 (codes "10.43.0.7") ≡ some (10 ∷ 43 ∷ 0 ∷ 7 ∷ [])
unfolding parse_ipv4 parse_uint
address = refl

abbrev no_network : Bytes → List Text → Option Bytes
no_network query us = none

no_record : Dict.get {V = ℕ} (trim_end b'.' (join b'.' labels)) [] ≡ none
unfolding Dict.get
no_record = refl

service_answered_example :
    (handle_query lower no_network domain store [] [] (query_for 7 0x0100 (join b'.' labels) 1)
      ≡ some (
          answer_bytes 7 true 1
            (question_for (join b'.' labels) 1)
            (address_record (join b'.' labels) (10 ∷ 43 ∷ 0 ∷ 7 ∷ []))))
    × (handle_query lower no_network domain store [] [] (query_for 7 0x0100 (join b'.' labels) 28)
        ≡ some (answer_bytes 7 true 0 (question_for (join b'.' labels) 28) []))
service_answered_example =
    service_answered lower no_network domain store [] [] 7 0x0100 labels (codes "10.43.0.7")
      (10 ∷ 43 ∷ 0 ∷ 7 ∷ []) (omega arith) (omega arith) are_labels (omega arith) refl no_record
      resolved address

-- A query without the recursion bit for the name `x`, which no service has.
abbrev query_x : Bytes
query_x = 0 ∷ 7 ∷ 0 ∷ 0 ∷ 0 ∷ 1 ∷ 0 ∷ 0 ∷ 0 ∷ 0 ∷ 0 ∷ 0 ∷ 1 ∷ 120 ∷ 0 ∷ 0 ∷ 1 ∷ 0 ∷ 1 ∷ []

handle_query_outcomes_example :
    Outcome lower no_network query_x (handle_query lower no_network domain store [] [] query_x)
handle_query_outcomes_example =
    handle_query_outcomes lower no_network domain store [] [] query_x (omega arith)
