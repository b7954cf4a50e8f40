-- ===== src/Net/Ingress/Records.antt =====
-- src/components/network/ingress.rs: the DNS records of the hosts.
use z8s.Base.{
  ℕ, ◌≡◌, refl, ◌∙◌, inl, inr, Bool, false, not, ◌&&◌, Option, none, some, List, [], ◌∷◌, arith,
  if◌then◌else◌, Bool-cases, unwrap_or, any,
}
use z8s.Base.Text.{Text, text_eq, text_eq_iff}
use z8s.Base.Dict.{Dict, get, put, get-put, get-remove}
use z8s.Resource.{Ingress, IngressRule, ingress}
use z8s.Net.Ingress.{
  IngressNet, insert_hosts, drop_host, remove_hosts, rules_of, on_apply, on_delete,
}

-- Whether one of the rules is for a host.
abbrev pub names : Text → List IngressRule → Bool
names host rules = any (λ rule. text_eq (unwrap_or rule.host []) host) rules

abbrev pub is_empty : Text → Bool
is_empty host = text_eq host []

get-insert_hosts :
    (gw : ℕ) (h : Text) (rules : List IngressRule) (records : Dict ℕ)
    → get h (insert_hosts gw rules records)
      ≡ (if names h rules && not (is_empty h) then some gw else get h records)
unfolding insert_hosts
get-insert_hosts gw h [] records = refl
get-insert_hosts gw h (rule ∷ rules) records =
    elim (Bool-cases (text_eq (unwrap_or rule.host []) [])) [
      | inl empty ↦
          rw (empty, get-insert_hosts gw h rules records)
            (ground (
              arith,
              text_eq_iff (unwrap_or rule.host []) [],
              text_eq_iff (unwrap_or rule.host []) h,
              text_eq_iff h [],
            ))
      | inr named ↦
          rw
            (
              named,
              get-insert_hosts gw h rules (put (unwrap_or rule.host []) gw records),
              get-put (unwrap_or rule.host []) h gw records,
            )
            (ground (
              arith,
              named,
              text_eq_iff (unwrap_or rule.host []) [],
              text_eq_iff (unwrap_or rule.host []) h,
              text_eq_iff h [],
            ))
    ]

get-drop_host :
    (h : Text) (host : Option Text) (records : Dict ℕ)
    → text_eq h [] ≡ false
    → get h (drop_host host records)
      ≡ (if text_eq (unwrap_or host []) h then none else get h records)
get-drop_host h none records ne = ground (arith, ne, text_eq_iff [] h, text_eq_iff h [])
get-drop_host h (some host) records ne = get-remove host h records

get-remove_hosts :
    (h : Text) (rules : List IngressRule) (records : Dict ℕ)
    → text_eq h [] ≡ false
    → get h (remove_hosts rules records) ≡ (if names h rules then none else get h records)
unfolding remove_hosts
get-remove_hosts h [] records ne = refl
get-remove_hosts h (rule ∷ rules) records ne =
    get-remove_hosts h rules (drop_host rule.host records) ne
    ∙ ground (arith, get-drop_host h rule.host records ne)

-- A host that is not empty has, after an ingress is applied, the gateway's address if one of the
-- rules is for it, and after the ingress is deleted no record if one of the rules is for it, also
-- where another ingress has it too; else it has what it had before.
pub records_lem :
    (gw : ℕ) (ing : Ingress) (net : IngressNet) (h : Text)
    → text_eq h [] ≡ false
    → (get h (on_apply gw (ingress ing) net).dns_records
        ≡ (if names h (rules_of ing.spec) then some gw else get h net.dns_records))
      × (get h (on_delete (ingress ing) net).dns_records
          ≡ (if names h (rules_of ing.spec) then none else get h net.dns_records))
unfolding on_apply on_delete
records_lem gw ing net h ne = (
  get-insert_hosts gw h (rules_of ing.spec) net.dns_records ∙ ground (arith, ne),
  get-remove_hosts h (rules_of ing.spec) net.dns_records ne,
)
