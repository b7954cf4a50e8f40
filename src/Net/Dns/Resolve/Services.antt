-- ===== src/Net/Dns/Resolve/Services.antt =====
-- src/netmux/dns.rs: the full name of a service in the store leads to it.
use z8s.Base.{
  ℕ, ◌≡◌, refl, sym, ap, ◌∙◌, ◌≢◌, inl, inr, Bool, true, false, ◌&&◌, Option, none, some, List, [],
  ◌∷◌, ◌++◌, arith, if◌then◌else◌, Bool-cases, unwrap_or,
}
use z8s.Base.Text.{Text, codes, text_eq, text_eq_iff, text_eq_refl, trim_end, trim_end-append}
use z8s.Base.Text.Split.{Lacks}
use z8s.Base.Dict
use z8s.Base.Dict.{Dict}
use z8s.Resource.{
  AnyResource, Service, ServiceSpec, service, pod, deployment, config_map, secret,
  persistent_volume, persistent_volume_claim, vnet, subnet, nsg, route_table, ingress,
  network_policy, kind, name, namespace, uid, metadata,
}
use z8s.Resource.Store.{ResourceStore, ResourceTracker, get_by_kind, of_kind, get}
use z8s.Resource.Store.Laws.{IsKeyed}
use z8s.Net.Dns.Resolve.{
  ServiceResolution, resolve_spec, candidate, resolve_in, resolve_service, is_named,
}
use z8s.Net.Dns.Resolve.Forms.{full_name}

-- The key of a service.
abbrev pub service_key : Text → Text → Text
service_key ns svc = codes "Service" ++ (b'/' ∷ (ns ++ (b'/' ∷ svc)))

both : (a b : Bool) → a && b ≡ true → (a ≡ true) × (b ≡ true)
both true b h = (refl, h)
both false b h = absurd (ground arith)

given_name :
    (o : Option Text) (svc other : Text)
    → svc ≢ []
    → text_eq (unwrap_or o []) svc ≡ true
    → unwrap_or o other ≡ svc
given_name none svc other ne h = absurd (ne (sym ((text_eq_iff [] svc).0 h)))
given_name (some s) svc other ne h = (text_eq_iff s svc).0 h

-- A service that the loop takes has the key of the name and the namespace that are asked for.
named_key :
    (svc ns : Text) (r : Service)
    → svc ≢ []
    → is_named svc (some ns) r ≡ true
    → uid (service r) ≡ service_key ns svc
unfolding uid kind namespace name metadata
named_key svc ns r ne h =
    let (hn, hs) = both (text_eq (unwrap_or r.metadata.name []) svc) _ h in
    rw
      (
        given_name r.metadata.name svc (codes "<unnamed>") ne hn,
        (text_eq_iff (unwrap_or r.metadata.namespace (codes "default")) ns).0 hs,
      )
      refl

-- A resource with another key is passed over.
other_key :
    (svc ns : Text) (r : AnyResource)
    → svc ≢ []
    → uid r ≢ service_key ns svc
    → candidate svc (some ns) r ≡ none
other_key svc ns (service r) ne other = elim (Bool-cases (is_named svc (some ns) r)) [
  | inl h ↦ absurd (other (named_key svc ns r ne h))
  | inr h ↦ rw h refl
]
other_key svc ns (pod r) ne other = refl
other_key svc ns (deployment r) ne other = refl
other_key svc ns (config_map r) ne other = refl
other_key svc ns (secret r) ne other = refl
other_key svc ns (persistent_volume r) ne other = refl
other_key svc ns (persistent_volume_claim r) ne other = refl
other_key svc ns (vnet r) ne other = refl
other_key svc ns (subnet r) ne other = refl
other_key svc ns (nsg r) ne other = refl
other_key svc ns (route_table r) ne other = refl
other_key svc ns (ingress r) ne other = refl
other_key svc ns (network_policy r) ne other = refl

taken :
    (svc : Text) (hint : Option Text) (u : ResourceTracker) (spec : ServiceSpec)
    (rest : List ResourceTracker)
    → candidate svc hint u.resource ≡ some spec
    → resolve_in svc hint (u ∷ rest) ≡ resolve_spec spec
unfolding resolve_in
taken svc hint u spec rest c = rw c refl

passed_over :
    (svc : Text) (hint : Option Text) (u : ResourceTracker) (found : ServiceResolution)
    (rest : List ResourceTracker) (b : Bool)
    → candidate svc hint u.resource ≡ none
    → resolve_in svc hint rest ≡ found
    → resolve_in svc hint (if b then u ∷ rest else rest) ≡ found
unfolding resolve_in
passed_over svc hint u found rest true c e = rw c e
passed_over svc hint u found rest false c e = e

not_nil : (x : ℕ) (s : Text) → x ∷ s ≢ []
not_nil x s p = ground (arith, p)

some_eq : (a b : ResourceTracker) → some a ≡ some b → a ≡ b
some_eq a b p = cc

-- The loop over the services finds the one under its key.
resolve_in_key :
    (svc ns key : Text) (t : ResourceTracker) (spec : ServiceSpec) (s : ResourceStore)
    → svc ≢ []
    → key ≡ service_key ns svc
    → IsKeyed s
    → Dict.get key s ≡ some t
    → kind t.resource ≡ codes "Service"
    → candidate svc (some ns) t.resource ≡ some spec
    → resolve_in svc (some ns) (of_kind (codes "Service") (Dict.values s)) ≡ resolve_spec spec
unfolding Dict.get Dict.values of_kind resolve_in
resolve_in_key svc ns key t spec [] ne ek v e k c = absurd (ground arith)
resolve_in_key svc ns key t spec ((i, u) ∷ s) ne ek (eq, fresh, v) e k c =
    elim (Bool-cases (text_eq i key)) [
      | inl same ↦
          let tu : t ≡ u = sym (some_eq u t (ground (arith, same, e))) in
          let ku : kind u.resource ≡ codes "Service" =
            ap (λ (x : ResourceTracker). kind x.resource) (sym tu) ∙ k in
          let cu : candidate svc (some ns) u.resource ≡ some spec =
            ap (λ (x : ResourceTracker). candidate svc (some ns) x.resource) (sym tu) ∙ c in
          rw (ku, text_eq_refl (codes "Service"))
            (taken svc (some ns) u spec (of_kind (codes "Service") (Dict.values s)) cu)
      | inr other ↦
          passed_over svc (some ns) u (resolve_spec spec)
            (of_kind (codes "Service") (Dict.values s))
            (text_eq (kind u.resource) (codes "Service"))
            (other_key svc ns u.resource ne
              (λ q. ground (arith, other, text_eq_iff i key, eq ∙ q ∙ sym ek)))
            (resolve_in_key svc ns key t spec s ne ek v (ground (arith, other, e)) k c)
    ]

-- In a store where every resource stands under its own key, the full name of a service, which is
-- `<name>.<namespace>.svc.<cluster domain>`, resolves to what the spec of the service says, whatever
-- else the store holds and in whatever order. Neither name nor namespace has a dot, the name is not
-- empty, and the domain is not empty and ends in no dot.
pub service_resolves :
    (domain svc ns : Text) (r : Service) (spec : ServiceSpec) (t : ResourceTracker)
    (s : ResourceStore)
    → Lacks b'.' svc
    → Lacks b'.' ns
    → svc ≢ []
    → domain ≢ []
    → trim_end b'.' domain ≡ domain
    → IsKeyed s
    → r.metadata.name ≡ some svc
    → unwrap_or r.metadata.namespace (codes "default") ≡ ns
    → r.spec ≡ some spec
    → t.resource ≡ service r
    → get (uid (service r)) s ≡ some t
    → resolve_service domain (svc ++ (b'.' ∷ (ns ++ (b'.' ∷ (codes "svc" ++ (b'.' ∷ domain)))))) s
      ≡ resolve_spec spec
unfolding resolve_service get get_by_kind kind
service_resolves domain svc ns r spec t s hs hn ne nd trimmed v en ens er et e =
    let named : is_named svc (some ns) r ≡ true =
      rw (en, ens, text_eq_refl svc, text_eq_refl ns) refl in
    let tail : Text = codes ".svc." ++ domain in
    let trim : trim_end b'.' (svc ++ (b'.' ∷ (ns ++ tail))) ≡ svc ++ (b'.' ∷ (ns ++ tail)) =
      trim_end-append b'.' svc (b'.' ∷ (ns ++ tail))
        (trim_end-append b'.' (b'.' ∷ ns) tail
          (trim_end-append b'.' (codes ".svc.") domain trimmed nd) (not_nil b'.' _))
        (not_nil b'.' _) in
    let taken : candidate svc (some ns) t.resource ≡ some spec =
      ap (candidate svc (some ns)) et ∙ rw named er in
    rw (trim, full_name domain svc ns hs hn)
      (resolve_in_key svc ns (uid (service r)) t spec s ne (named_key svc ns r ne named) v e
        (ap kind et) taken)
