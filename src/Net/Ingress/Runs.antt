-- ===== src/Net/Ingress/Runs.antt =====
-- src/netmux/ingress.rs and src/components/network/ingress.rs: two ingresses without a uid.
use z8s.Base.{◌≡◌, refl, false, none, some, [], ◌∷◌, ◌++◌, if◌then◌else◌, unwrap_or}
use z8s.Base.Text.{Text, codes, text_eq, starts_with}
use z8s.Base.Text.Utf8
use z8s.Base.Text.Utf8.{from_utf8}
use z8s.Base.Int.{pos}
use z8s.Base.Dict
use z8s.Base.Dict.{Dict, get}
use z8s.Resource.{ObjectMeta, Ingress, IngressSpec, HttpPath, ingress}
use z8s.Resource.Store.{get_by_kind}
use z8s.Net.Ingress.{
  Table, IngressNet, apply_ingress, handle_connection, rules_of, on_apply, on_delete,
}
use z8s.Net.Ingress.Routes.{backends_for, last_or, apply_ingress_lem}
use z8s.Net.Ingress.Records.{names, records_lem}

abbrev meta : ObjectMeta
meta = record {
  name = some (codes "shop");
  namespace = none;
  uid = none;
  labels = none;
  owner_references = none;
}

abbrev path_to : Text → HttpPath
path_to service = record {
  service = some (record { name = service; port = some (some (pos 8080)) });
}

abbrev shop_spec : IngressSpec
shop_spec = record {
  rules = some (
      record {
        host = some (codes "shop.example");
        http = some (path_to (codes "web") ∷ path_to (codes "api") ∷ []);
      }
      ∷ []);
}

abbrev shop : Ingress
shop = record { metadata = meta; spec = some shop_spec }

abbrev blog : Ingress
blog = record {
  metadata = record meta { name = some (codes "blog") };
  spec = some (record {
    rules = some (
        record { host = some (codes "blog.example"); http = some (path_to (codes "blog") ∷ []) }
        ∷ []);
  });
}

apply_ingress_lem_example :
    (table : Table) × (get [] (apply_ingress shop []) ≡ some table)
    × ((h : Text) → get h table ≡ last_or none (backends_for h (unwrap_or shop_spec.rules [])))
    × ((uid : Text) → text_eq [] uid ≡ false → get uid (apply_ingress shop []) ≡ get uid [])
apply_ingress_lem_example = apply_ingress_lem shop shop_spec [] refl

-- The second path of the host has taken the place of the first.
last_backend :
    last_or none (backends_for (codes "shop.example") (unwrap_or shop_spec.rules []))
    ≡ some (codes "api", 8080)
unfolding text_eq
last_backend = refl

abbrev crlf : Text
crlf = 13 ∷ 10 ∷ []

abbrev request : Text
request = codes "GET / HTTP/1.1" ++ (crlf ++ (codes "Host: shop.example:8080" ++ (crlf ++ crlf)))

routed : handle_connection (apply_ingress shop []) [] request ≡ some (codes "127.0.0.1", 8080)
unfolding handle_connection apply_ingress from_utf8 starts_with text_eq Dict.put Dict.get
    get_by_kind Dict.values Utf8.lossy
routed = refl

abbrev net : IngressNet
net = record { ingress_state = []; dns_records = [] }

records_lem_example :
    (get (codes "shop.example") (on_apply 174325761 (ingress shop) net).dns_records ≡ (
      if names (codes "shop.example") (rules_of shop.spec)
      then some 174325761
      else get (codes "shop.example") net.dns_records))
    × (get (codes "shop.example") (on_delete (ingress shop) net).dns_records ≡ (
        if names (codes "shop.example") (rules_of shop.spec)
        then none
        else get (codes "shop.example") net.dns_records))
records_lem_example = records_lem 174325761 shop net (codes "shop.example") (unfold text_eq in refl)
