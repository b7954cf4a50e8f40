-- ===== src/Net/Dns/Resolve.antt =====
-- src/netmux/dns.rs: from a name to a service. The configured `cluster_domain` is an argument.
pub mod Forms
pub mod Services
use z8s.Base.{
  ℕ, zero, suc, ◌+◌, ◌-◌, ◌*◌, ◌/◌, ◌%◌, ◌^◌, ◌≤◌, ◌<◌, min, max, ◌≡◌, refl, sym, ap, ◌∙◌, ◌≢◌, ◌↔◌,
  ◌⊎◌, inl, inr, Bool, true, false, not, ◌&&◌, ◌||◌, Option, none, some, List, [], ◌∷◌, ◌++◌, map,
  arith, dec_lt, ltb, leb, ◌==◌, if◌then◌else◌, Bool-cases, Option-cases, unwrap_or, is_some,
  length, get_elem?, take, drop, length-append, any, all, All, All-append,
}
use z8s.Base.Text.{
  Text, codes, text_eq, text_eq_iff, text_eq_refl, texts_eq, texts_eq_refl, trim_end,
}
use z8s.Base.Text.Split.{Lacks, split, join, split-join, split-append, split-Lacks}
use z8s.Base.{◌>>=◌}
use z8s.Base.Numbers.{parse_uint}
use z8s.Resource.{AnyResource, Service, ServiceSpec, service}
use z8s.Resource.Store.{ResourceStore, ResourceTracker, get_by_kind}

-- `parts[i]` where the index is in range.
abbrev pub part : List Text → ℕ → Text
part parts i = unwrap_or (get_elem? parts i) []

abbrev pub in_domain : List Text → List Text → Bool
in_domain domain_parts parts =
    texts_eq (drop (length parts - length domain_parts) parts) domain_parts

abbrev pub is_svc : List Text → List Text → Bool
is_svc domain_parts parts =
    text_eq (part parts (length parts - length domain_parts - 1)) (codes "svc")

abbrev pub service_of : List Text → List Text → Option (Text × Option Text)
service_of domain_parts parts =
    let n = length parts in
    let dn = length domain_parts in
    if leb (dn + 3) n && (in_domain domain_parts parts && is_svc domain_parts parts)
    then some (join b'.' (take (n - dn - 2) parts), some (part parts (n - dn - 2)))
    else if leb (dn + 2) n && (in_domain domain_parts parts && is_svc domain_parts parts)
    then some (part parts 0, none)
    else if leb (dn + 1) n && in_domain domain_parts parts
    then some (part parts 0, none)
    else if n == 1
    then some (part parts 0, none)
    else if n == 2
    then some (part parts 0, some (part parts 1))
    else none

-- `parse_service_name`.
unfoldable pub parse_service_name : Text → Text → Option (Text × Option Text)
unfolding split
parse_service_name domain name = service_of (split b'.' domain) (split b'.' name)

pub data ServiceResolution : Type 0 where
  cluster_ip external_name : Text → ServiceResolution
  no_service : ServiceResolution

abbrev pub is_text : Option Text → Text → Bool
is_text none s = false
is_text (some t) s = text_eq t s

abbrev external : Option Text → ServiceResolution
external none = no_service
external (some []) = no_service
external (some (c ∷ s)) = external_name (c ∷ s)

abbrev cluster : Text → ServiceResolution
cluster [] = no_service
cluster (c ∷ s) = if text_eq (c ∷ s) (codes "None") then no_service else cluster_ip (c ∷ s)

-- What the spec of the service that was found says.
abbrev pub resolve_spec : ServiceSpec → ServiceResolution
resolve_spec spec =
    if is_text spec.type_ (codes "ExternalName")
    then external spec.external_name
    else cluster (unwrap_or spec.cluster_ip (codes "None"))

abbrev pub hint_fits : Option Text → Text → Bool
hint_fits none svc_ns = true
hint_fits (some hint) svc_ns = text_eq svc_ns hint

-- Whether the loop looks at the spec of the service.
abbrev pub is_named : Text → Option Text → Service → Bool
is_named svc_name ns_hint svc =
    text_eq (unwrap_or svc.metadata.name []) svc_name
    && hint_fits ns_hint (unwrap_or svc.metadata.namespace (codes "default"))

-- The spec at which the loop returns, if it returns at this resource.
abbrev pub candidate : Text → Option Text → AnyResource → Option ServiceSpec
candidate svc_name ns_hint (service svc) = if is_named svc_name ns_hint svc then svc.spec else none
candidate svc_name ns_hint _ = none

abbrev pub resolved : Option ServiceSpec → ServiceResolution → ServiceResolution
resolved none rest = rest
resolved (some spec) rest = resolve_spec spec

unfoldable pub resolve_in : Text → Option Text → List ResourceTracker → ServiceResolution
resolve_in svc_name ns_hint [] = no_service
resolve_in svc_name ns_hint (t ∷ ts) =
    resolved (candidate svc_name ns_hint t.resource) (resolve_in svc_name ns_hint ts)

abbrev pub resolve_parsed : Option (Text × Option Text) → List ResourceTracker → ServiceResolution
resolve_parsed none trackers = no_service
resolve_parsed (some (svc_name, ns_hint)) trackers = resolve_in svc_name ns_hint trackers

-- `resolve_service`.
unfoldable pub resolve_service : Text → Text → ResourceStore → ServiceResolution
unfolding resolve_in
resolve_service domain name store =
    resolve_parsed (parse_service_name domain (trim_end b'.' name))
      (get_by_kind (codes "Service") store)

abbrev octets : List Text → Option (List ℕ)
octets (a ∷ b ∷ c ∷ d ∷ []) = do
  a ← parse_uint 255 a
  b ← parse_uint 255 b
  c ← parse_uint 255 c
  d ← parse_uint 255 d
  some (a ∷ b ∷ c ∷ d ∷ [])
octets _ = none

-- `parse_ipv4`.
unfoldable pub parse_ipv4 : Text → Option (List ℕ)
unfolding split
parse_ipv4 s = octets (split b'.' s)
