-- ===== src/Api/Proto/Resources.antt =====
-- src/api/proto.rs: the decoders of resources.
use z8s.Base.{ℕ, not, Option, none, some, List, [], ◌∷◌, ◌++◌, ◌==◌, if◌then◌else◌, unwrap_or, drop}
use z8s.Base.Int.{as_i64}
use z8s.Base.Text.{Text, codes, text_eq, starts_with}
use z8s.Base.Text.Utf8.{lossy}
use z8s.Base.Dict
use z8s.Base.Dict.{Dict}
use z8s.Base.Checked.{Checked, ok, ◌>>=◌}
use z8s.Api.Json.{Json, int, str, arr, obj, items, text_fields, set, empty_obj, entries}
use z8s.Api.Proto.{Bytes, Value, bytes, Flow, go, each_field}
use z8s.Api.Proto.Fields.{bytes_only, get_bytes_field, get_string_field, get_varint_field}

-- `if let (Some(k), Some(v)) = … { labels.insert(k, v); }`
abbrev insert_label : Option Text → Option Text → Dict Text → Dict Text
insert_label (some k) (some v) labels = Dict.put k v labels
insert_label _ _ labels = labels

-- The loop over the entries of a map<string, string> in field `at`.
abbrev label_body : ℕ → ℕ → Bytes → Dict Text → Checked (Flow (Dict Text))
label_body at f b labels =
    if f == at
    then (do k ← get_string_field b 1; v ← get_string_field b 2; ok (go (insert_label k v labels)))
    else ok (go labels)

unfoldable pub parse_labels : Bytes → ℕ → Checked (Dict Text)
parse_labels msg at = each_field (bytes_only (label_body at)) msg []

-- `if !text.is_empty() { out[key] = text }`
abbrev set_text : Text → Text → Json → Json
set_text key [] out = out
set_text key (c ∷ s) out = set key (str (c ∷ s)) out

abbrev set_labels : Dict Text → Json → Json
set_labels [] out = out
set_labels (l ∷ labels) out = set (codes "labels") (obj (text_fields (l ∷ labels))) out

abbrev meta_of : Bytes → Checked Json
meta_of inner = do
  name ← get_string_field inner 1
  generate_name ← get_string_field inner 2
  namespace ← get_string_field inner 3
  uid ← get_string_field inner 5
  labels ← parse_labels inner 11
  let out = obj (entries ((codes "name", str (unwrap_or name [])) ∷ []))
  let out = set_text (codes "generateName") (unwrap_or generate_name []) out
  let out = set_text (codes "namespace") (unwrap_or namespace []) out
  let out = set_text (codes "uid") (unwrap_or uid []) out
  ok (set_labels labels out)

-- `let Some(inner) = get_bytes_field(msg, field) else { return json!({}) };`
abbrev inner_or_empty : (Bytes → Checked Json) → Option Bytes → Checked Json
inner_or_empty decode none = ok empty_obj
inner_or_empty decode (some inner) = decode inner

-- `parse_object_meta`.
unfoldable pub parse_object_meta : Bytes → ℕ → Checked Json
unfolding parse_labels
parse_object_meta msg field = get_bytes_field msg field >>= inner_or_empty meta_of

-- The four lists that `parse_container` collects.
pub record Collected : Type 0 where
  pub command : List Json
  pub args : List Json
  pub env : List Json
  pub ports : List Json

abbrev push_env : Text → Text → Collected → Collected
push_env k v c = record c {
  env = c.env ++ obj (entries ((codes "name", str k) ∷ (codes "value", str v) ∷ [])) ∷ [];
}

-- `if let Some(k) = get_string_field(b, 1) { … }`
abbrev env_var : Bytes → Collected → Option Text → Checked (Flow Collected)
env_var b c none = ok (go c)
env_var b c (some k) = do v ← get_string_field b 2; ok (go (push_env k (unwrap_or v []) c))

abbrev push_port : ℕ → Text → Collected → Collected
push_port port protocol c = record c {
  ports =
      c.ports
      ++ obj (
          entries
            ((codes "containerPort", int (as_i64 port)) ∷ (codes "protocol", str protocol) ∷ []))
        ∷ [];
}

abbrev container_bytes : ℕ → Bytes → Collected → Checked (Flow Collected)
container_bytes f b c =
    if f == 3
    then ok (go (record c { command = c.command ++ str (lossy b) ∷ [] }))
    else if f == 4
    then ok (go (record c { args = c.args ++ str (lossy b) ∷ [] }))
    else if f == 6
    then (get_string_field b 1 >>= env_var b c)
    else if f == 7
    then (do
      port ← get_varint_field b 1
      protocol ← get_string_field b 4
      ok (go (push_port (unwrap_or port 0) (unwrap_or protocol (codes "TCP")) c)))
    else ok (go c)

abbrev container_body : ℕ → Value → Collected → Checked (Flow Collected)
container_body f (bytes b) c = container_bytes f b c
container_body f _ c = ok (go c)

-- `if !list.is_empty() { c[key] = list }`
abbrev set_list : Text → List Json → Json → Json
set_list key [] out = out
set_list key (v ∷ vs) out = set key (arr (items (v ∷ vs))) out

-- `parse_container`.
unfoldable pub parse_container : Bytes → Checked Json
parse_container msg = do
  name ← get_string_field msg 1
  image ← get_string_field msg 2
  c ← each_field container_body msg (record { command = []; args = []; env = []; ports = [] })
  let out = obj (
      entries
        ((codes "name", str (unwrap_or name [])) ∷ (codes "image", str (unwrap_or image [])) ∷ []))
  let out = set_list (codes "command") c.command out
  let out = set_list (codes "args") c.args out
  let out = set_list (codes "env") c.env out
  ok (set_list (codes "ports") c.ports out)

abbrev containers_body : ℕ → ℕ → Bytes → List Json → Checked (Flow (List Json))
containers_body field f b out =
    if f == field then (parse_container b >>= λ c. ok (go (out ++ c ∷ []))) else ok (go out)

-- `parse_containers`.
unfoldable pub parse_containers : Bytes → ℕ → Checked (List Json)
unfolding parse_container
parse_containers msg field = each_field (bytes_only (containers_body field)) msg []

-- `if let Some(text) = … { spec[key] = text }`
abbrev set_some : Text → Option Text → Json → Json
set_some key none out = out
set_some key (some s) out = set key (str s) out

abbrev pod_spec_of : Bytes → Checked Json
pod_spec_of inner = do
  containers ← parse_containers inner 2
  init_containers ← parse_containers inner 20
  dns ← get_string_field inner 6
  svc ← get_string_field inner 8
  restart ← get_string_field inner 3
  let spec = obj (entries ((codes "containers", arr (items containers)) ∷ []))
  let spec = set_list (codes "initContainers") init_containers spec
  let spec = set_some (codes "dnsPolicy") dns spec
  let spec = set_some (codes "serviceAccountName") svc spec
  ok (set_some (codes "restartPolicy") restart spec)

-- `parse_pod_spec`.
unfoldable pub parse_pod_spec : Bytes → ℕ → Checked Json
unfolding parse_containers
parse_pod_spec msg field = get_bytes_field msg field >>= inner_or_empty pod_spec_of

abbrev selector_of : Bytes → Checked Json
selector_of sel = do
  labels ← parse_labels sel 1
  ok (obj (entries ((codes "matchLabels", obj (text_fields labels)) ∷ [])))

abbrev template_of : Bytes → Checked Json
template_of tmpl = do
  tmpl_meta ← parse_object_meta tmpl 1
  tmpl_spec ← parse_pod_spec tmpl 2
  ok (obj (entries ((codes "metadata", tmpl_meta) ∷ (codes "spec", tmpl_spec) ∷ [])))

abbrev pub deploy_spec_of : Bytes → Checked Json
deploy_spec_of inner = do
  replicas ← get_varint_field inner 1
  selector ← get_bytes_field inner 2 >>= inner_or_empty selector_of
  template ← get_bytes_field inner 3 >>= inner_or_empty template_of
  ok (
      obj (
        entries (
          (codes "replicas", int (as_i64 (unwrap_or replicas 1)))
          ∷ (codes "selector", selector)
          ∷ (codes "template", template)
          ∷ [])))

-- `parse_deploy_spec`.
unfoldable pub parse_deploy_spec : Bytes → ℕ → Checked Json
unfolding parse_object_meta parse_pod_spec
parse_deploy_spec msg field = get_bytes_field msg field >>= inner_or_empty deploy_spec_of

abbrev header : Text → Text → Json → List (Text × Json) → Json
header api_version kind meta more = obj (
    entries (
      (codes "apiVersion", str api_version)
      ∷ (codes "kind", str kind)
      ∷ (codes "metadata", meta)
      ∷ more))

-- `decode_namespace`, `decode_pod` and `decode_deployment`.
unfoldable pub decode_namespace : Bytes → Text → Checked Json
unfolding parse_object_meta
decode_namespace raw api_version = do
  meta ← parse_object_meta raw 1
  ok (header api_version (codes "Namespace") meta [])

unfoldable pub decode_pod : Bytes → Text → Checked Json
unfolding parse_object_meta parse_pod_spec
decode_pod raw api_version = do
  meta ← parse_object_meta raw 1
  spec ← parse_pod_spec raw 2
  ok (header api_version (codes "Pod") meta ((codes "spec", spec) ∷ []))

unfoldable pub decode_deployment : Bytes → Text → Checked Json
unfolding parse_deploy_spec
decode_deployment raw api_version = do
  meta ← parse_object_meta raw 1
  spec ← parse_deploy_spec raw 2
  ok (header api_version (codes "Deployment") meta ((codes "spec", spec) ∷ []))

-- What the outer loop of `try_proto_to_json` collects.
pub record Unknown : Type 0 where
  pub api_version : Text
  pub kind : Text
  pub raw : Bytes

abbrev type_meta_body : ℕ → Value → Unknown → Checked (Flow Unknown)
type_meta_body f (bytes s) u =
    if f == 1
    then ok (go (record u { api_version = lossy s }))
    else if f == 2
    then ok (go (record u { kind = lossy s }))
    else ok (go u)
type_meta_body f _ u = ok (go u)

abbrev unknown_body : ℕ → Value → Unknown → Checked (Flow Unknown)
unknown_body f (bytes b) u =
    if f == 1
    then (each_field type_meta_body b u >>= λ u'. ok (go u'))
    else if f == 2
    then ok (go (record u { raw = b }))
    else ok (go u)
unknown_body f _ u = ok (go u)

abbrev decode : Unknown → Checked (Option Json)
decode u =
    if text_eq u.kind (codes "Namespace")
    then (decode_namespace u.raw u.api_version >>= λ v. ok (some v))
    else if text_eq u.kind (codes "Pod")
    then (decode_pod u.raw u.api_version >>= λ v. ok (some v))
    else if text_eq u.kind (codes "Deployment")
    then (decode_deployment u.raw u.api_version >>= λ v. ok (some v))
    else ok none

abbrev magic : Bytes
magic = codes "k8s" ++ 0 ∷ []

-- `try_proto_to_json`.
unfoldable pub try_proto_to_json : Bytes → Checked (Option Json)
unfolding decode_namespace decode_pod decode_deployment
try_proto_to_json msg =
    if not (starts_with msg magic)
    then ok none
    else (each_field unknown_body (drop 4 msg) (record { api_version = []; kind = []; raw = [] })
        >>= decode)
