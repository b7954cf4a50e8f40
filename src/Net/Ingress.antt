-- ===== src/Net/Ingress.antt =====
-- src/netmux/ingress.rs, without its sockets, and src/components/network/ingress.rs.
pub mod Routes
pub mod Records
mod Runs
use z8s.Base.{
  ℕ, zero, suc, ◌+◌, ◌-◌, ◌*◌, ◌/◌, ◌%◌, ◌^◌, ◌≤◌, ◌<◌, min, max, ◌≡◌, refl, sym, ap, ◌∙◌, ◌≢◌, ◌↔◌,
  ◌⊎◌, inl, inr, Bool, true, false, not, ◌&&◌, ◌||◌, Option, none, some, List, [], ◌∷◌, ◌++◌, map,
  arith, dec_lt, ltb, leb, ◌==◌, if◌then◌else◌, Bool-cases, Option-cases, unwrap_or, is_some,
  length, get_elem?, take, drop, length-append, any, all, All, All-append,
}
use z8s.Base.Text.{Text, codes, text_eq, starts_with}
use z8s.Base.Text.Split.{split, rsplit_once}
use z8s.Base.Text.Utf8.{from_utf8}
use z8s.Base.Text.Trim.{trim, strip_suffix}
use z8s.Base.Int.{ℤ, pos, as_u16}
use z8s.Base.Dict
use z8s.Base.Dict.{Dict}
use z8s.Resource.{
  AnyResource, Ingress, IngressSpec, IngressRule, HttpPath, IngressBackend, Service, ServiceSpec,
  ingress, service,
}
use z8s.Resource.Store.{ResourceStore, ResourceTracker, get_by_kind}

-- The backends by host, each a service with a port.
abbrev pub Table : Type 0
Table = Dict (Text × ℕ)

-- `IngressState`: a table for each ingress.
abbrev pub IngressState : Type 0
IngressState = Dict Table

abbrev pub number_of : Option (Option ℤ) → ℤ
number_of (some (some n)) = n
number_of _ = pos 80

abbrev pub backend_of : Option IngressBackend → Text × ℕ
backend_of none = ([], 80)
backend_of (some b) = (b.name, as_u16 (number_of b.port))

unfoldable pub add_paths : Text → List HttpPath → Table → Table
add_paths host [] table = table
add_paths host (p ∷ paths) table = add_paths host paths (Dict.put host (backend_of p.service) table)

abbrev pub host_of : IngressRule → Text
host_of rule = unwrap_or rule.host (codes "*")

unfoldable pub add_rules : List IngressRule → Table → Table
unfolding add_paths
add_rules [] table = table
add_rules (rule ∷ rules) table =
    add_rules rules (add_paths (host_of rule) (unwrap_or rule.http []) table)

abbrev pub uid_of : Ingress → Text
uid_of ing = unwrap_or ing.metadata.uid []

abbrev pub apply_spec : Text → Option IngressSpec → IngressState → IngressState
apply_spec uid none state = state
apply_spec uid (some spec) state = Dict.put uid (add_rules (unwrap_or spec.rules []) []) state

-- `apply_ingress` and `remove_ingress`.
unfoldable pub apply_ingress : Ingress → IngressState → IngressState
unfolding add_rules
apply_ingress ing state = apply_spec (uid_of ing) ing.spec state

unfoldable pub remove_ingress : Ingress → IngressState → IngressState
remove_ingress ing state = Dict.remove (uid_of ing) state

abbrev pub strip_cr : Text → Text
strip_cr line = unwrap_or (strip_suffix (13 ∷ []) line) line

abbrev pub lines_of : List Text → List Text
lines_of [] = []
lines_of (line ∷ []) = if text_eq line [] then [] else line ∷ []
lines_of (line ∷ next ∷ lines) = strip_cr line ∷ lines_of (next ∷ lines)

-- `str::lines`.
unfoldable pub lines : Text → List Text
unfolding split strip_suffix
lines s = lines_of (split 10 s)

abbrev pub lower : ℕ → ℕ
lower c = if leb b'A' c && leb c b'Z' then c + 32 else c

abbrev pub to_ascii_lowercase : Text → Text
to_ascii_lowercase s = map lower s

abbrev pub before_colon : Text → Text
before_colon val = elim (rsplit_once b':' val) [ none ↦ val | some (host, _) ↦ host ]

unfoldable pub host_line : List Text → Option Text
unfolding trim rsplit_once
host_line [] = none
host_line (line ∷ rest) =
    let later = host_line rest in
    if starts_with (to_ascii_lowercase line) (codes "host:")
    then some (before_colon (trim (drop 5 line)))
    else later

-- `extract_host`.
unfoldable pub extract_host : Text → Option Text
unfolding from_utf8 lines host_line
extract_host buf = elim (from_utf8 buf) [ none ↦ none | some s ↦ host_line (lines s) ]

abbrev pub first_of : Option (Text × ℕ) → Option (Text × ℕ) → Option (Text × ℕ)
first_of none o = o
first_of (some b) o = some b

-- `find_map` over the tables: a host of its own, else the wildcard.
unfoldable pub find_backend : Text → IngressState → Option (Text × ℕ)
find_backend host [] = none
find_backend host ((uid, table) ∷ state) =
    first_of (first_of (Dict.get host table) (Dict.get (codes "*") table)) (find_backend host state)

abbrev pub address_of : Option ServiceSpec → Option Text
address_of none = none
address_of (some spec) = elim spec.cluster_ip [
  | none ↦ none
  | some ip ↦ if text_eq ip [] || text_eq ip (codes "None") then none else some ip
]

abbrev pub endpoint_of : Text → AnyResource → Option Text
endpoint_of service_name (service svc) = elim svc.metadata.name [
  | none ↦ none
  | some n ↦ if text_eq n service_name then address_of svc.spec else none
]
endpoint_of service_name _ = none

unfoldable pub endpoint_among : Text → List ResourceTracker → Text
endpoint_among service_name [] = codes "127.0.0.1"
endpoint_among service_name (t ∷ ts) =
    unwrap_or (endpoint_of service_name t.resource) (endpoint_among service_name ts)

-- `resolve_endpoint`.
unfoldable pub resolve_endpoint : ResourceStore → Text → ℕ → Text × ℕ
unfolding endpoint_among
resolve_endpoint store service_name port =
    (endpoint_among service_name (get_by_kind (codes "Service") store), port)

abbrev pub connect_to : ResourceStore → Option (Text × ℕ) → Option (Text × ℕ)
connect_to store none = none
connect_to store (some (svc, p)) = some (resolve_endpoint store svc p)

-- `handle_connection`, up to the connection: where to connect to for the bytes that were peeked.
unfoldable pub handle_connection : IngressState → ResourceStore → Text → Option (Text × ℕ)
unfolding extract_host find_backend resolve_endpoint
handle_connection state store [] = none
handle_connection state store (b ∷ buf) =
    connect_to store (find_backend (unwrap_or (extract_host (b ∷ buf)) []) state)

-- What the component changes of the pod network.
pub record IngressNet : Type 0 where
  pub ingress_state : IngressState
  pub dns_records : Dict ℕ

unfoldable pub insert_hosts : ℕ → List IngressRule → Dict ℕ → Dict ℕ
insert_hosts gw [] records = records
insert_hosts gw (rule ∷ rules) records = insert_hosts gw rules (
    if text_eq (unwrap_or rule.host []) []
    then records
    else Dict.put (unwrap_or rule.host []) gw records)

abbrev pub drop_host : Option Text → Dict ℕ → Dict ℕ
drop_host none records = records
drop_host (some host) records = Dict.remove host records

unfoldable pub remove_hosts : List IngressRule → Dict ℕ → Dict ℕ
remove_hosts [] records = records
remove_hosts (rule ∷ rules) records = remove_hosts rules (drop_host rule.host records)

abbrev pub rules_of : Option IngressSpec → List IngressRule
rules_of none = []
rules_of (some spec) = unwrap_or spec.rules []

-- `on_apply` and `on_delete` of the component.
unfoldable pub on_apply : ℕ → AnyResource → IngressNet → IngressNet
unfolding apply_ingress insert_hosts
on_apply gw (ingress ing) net = record {
  ingress_state = apply_ingress ing net.ingress_state;
  dns_records = insert_hosts gw (rules_of ing.spec) net.dns_records;
}
on_apply gw _ net = net

unfoldable pub on_delete : AnyResource → IngressNet → IngressNet
unfolding remove_ingress remove_hosts
on_delete (ingress ing) net = record {
  ingress_state = remove_ingress ing net.ingress_state;
  dns_records = remove_hosts (rules_of ing.spec) net.dns_records;
}
on_delete _ net = net
