-- ===== src/Net/Ingress/Routes.antt =====
-- src/netmux/ingress.rs: which backend a host has.
use z8s.Base.{
  ℕ, ◌≡◌, refl, sym, ◌∙◌, inl, inr, false, Option, none, some, List, [], ◌∷◌, ◌++◌, arith,
  if◌then◌else◌, Bool-cases, unwrap_or,
}
use z8s.Base.Text.{Text, codes, text_eq, text_eq_refl}
use z8s.Base.Dict.{get, put, get-put}
use z8s.Resource.{Ingress, IngressSpec, IngressRule, HttpPath}
use z8s.Net.Ingress.{
  Table, IngressState, backend_of, add_paths, host_of, add_rules, uid_of, apply_spec, apply_ingress,
  find_backend,
}

abbrev Backend : Type 0
Backend = Text × ℕ

abbrev pub path_backends : List HttpPath → List Backend
path_backends [] = []
path_backends (p ∷ paths) = backend_of p.service ∷ path_backends paths

-- The backends of all paths of the rules for a host, in their order.
abbrev pub backends_for : Text → List IngressRule → List Backend
backends_for host [] = []
backends_for host (rule ∷ rules) =
    (if text_eq (host_of rule) host then path_backends (unwrap_or rule.http []) else [])
    ++ backends_for host rules

abbrev pub last_or : Option Backend → List Backend → Option Backend
last_or o [] = o
last_or o (b ∷ bs) = last_or (some b) bs

last_or-append :
    (o : Option Backend) (bs cs : List Backend) → last_or o (bs ++ cs) ≡ last_or (last_or o bs) cs
last_or-append o [] cs = refl
last_or-append o (b ∷ bs) cs = last_or-append (some b) bs cs

get-add_paths :
    (h host : Text) (paths : List HttpPath) (table : Table)
    → get h (add_paths host paths table)
      ≡ (if text_eq host h then last_or (get h table) (path_backends paths) else get h table)
unfolding add_paths
get-add_paths h host [] table = ground arith
get-add_paths h host (p ∷ paths) table =
    rw
      (
        get-add_paths h host paths (put host (backend_of p.service) table),
        get-put host h (backend_of p.service) table,
      )
      (elim (Bool-cases (text_eq host h)) [ inl same ↦ rw same | inr other ↦ rw other ])

get-add_rules :
    (h : Text) (rules : List IngressRule) (table : Table)
    → get h (add_rules rules table) ≡ last_or (get h table) (backends_for h rules)
unfolding add_rules
get-add_rules h [] table = refl
get-add_rules h (rule ∷ rules) table =
    rw
      (
        get-add_rules h rules (add_paths (host_of rule) (unwrap_or rule.http []) table),
        get-add_paths h (host_of rule) (unwrap_or rule.http []) table,
      )
      (elim (Bool-cases (text_eq (host_of rule) h)) [
        | inl same ↦ rw same (
            sym (
              last_or-append (get h table) (path_backends (unwrap_or rule.http []))
                (backends_for h rules)))
        | inr other ↦ rw other
      ])

-- Applying an ingress with a spec puts under its uid, which is the empty text if it has none, a
-- table in which every host has the backend of the last of all paths that its rules have for that
-- host, whatever paths these are; the tables under other uids stay.
pub apply_ingress_lem :
    (ing : Ingress) (spec : IngressSpec) (state : IngressState)
    → ing.spec ≡ some spec
    → (table : Table) × (get (uid_of ing) (apply_ingress ing state) ≡ some table)
      × ((h : Text) → get h table ≡ last_or none (backends_for h (unwrap_or spec.rules [])))
      × ((uid : Text)
          → text_eq (uid_of ing) uid ≡ false
          → get uid (apply_ingress ing state) ≡ get uid state)
unfolding apply_ingress
apply_ingress_lem ing spec state e =
    let table = add_rules (unwrap_or spec.rules []) [] in
    (
      table,
      rw (e, get-put (uid_of ing) (uid_of ing) table state, text_eq_refl (uid_of ing)),
      λ h.
          get-add_rules h (unwrap_or spec.rules []) []
          ∙ none_there h (backends_for h (unwrap_or spec.rules [])),
      λ uid ne. rw (e, get-put (uid_of ing) uid table state, ne),
    )
  where
    none_there : (h : Text) (bs : List Backend) → last_or (get h []) bs ≡ last_or none bs
    none_there h bs = unfold get in refl

put-put : (k : Text) (t u : Table) (state : IngressState) → put k u (put k t state) ≡ put k u state
unfolding put
put-put k t u [] = rw (text_eq_refl k)
put-put k t u ((j, v) ∷ state) = elim (Bool-cases (text_eq j k)) [
  | inl same ↦ rw same (rw same)
  | inr other ↦ rw other (rw (other, put-put k t u state))
]

-- Of two ingresses with one uid, or with none, only the one applied last has routes.
pub apply-apply_ingress :
    (a b : Ingress) (spec : IngressSpec) (state : IngressState)
    → uid_of a ≡ uid_of b
    → b.spec ≡ some spec
    → apply_ingress b (apply_ingress a state) ≡ apply_ingress b state
unfolding apply_ingress
apply-apply_ingress a b spec state same e = rw (e, same) (both a.spec)
  where
    both :
        (o : Option IngressSpec)
        → put (uid_of b) (add_rules (unwrap_or spec.rules []) []) (apply_spec (uid_of b) o state)
          ≡ put (uid_of b) (add_rules (unwrap_or spec.rules []) []) state
    both none = refl
    both (some s) =
        put-put (uid_of b) (add_rules (unwrap_or s.rules []) [])
          (add_rules (unwrap_or spec.rules []) []) state

-- A host is sent to the wildcard of an ingress that stands in front, even if a later one has a rule
-- for that very host.
pub wildcard_shadows :
    (host uid : Text) (table : Table) (b : Backend) (state : IngressState)
    → get host table ≡ none
    → get (codes "*") table ≡ some b
    → find_backend host ((uid, table) ∷ state) ≡ some b
unfolding find_backend
wildcard_shadows host uid table b state e w = rw (e, w)
