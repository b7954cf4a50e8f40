-- ===== src/Api/Proto/Runs.antt =====
-- Concrete runs of src/api/proto.rs, and the theorems at concrete inputs.
use z8s.Base.{ℕ, ◌+◌, ◌≡◌, refl, none, some, List, [], ◌∷◌, ◌++◌, arith, length}
use z8s.Base.Int.{pos}
use z8s.Base.Text.{codes, text_eq, starts_with}
use z8s.Base.Text.Utf8.{lossy}
use z8s.Base.Dict
use z8s.Base.Checked.{ok}
use z8s.Api.Json.{int, str, obj, empty_obj, entries}
use z8s.Api.Proto.{
  Bytes, Value, varint, bytes, each_field, while_fields, new_parser, read_varint, next_field,
}
use z8s.Api.Proto.Fields.{get_bytes_field, get_string_field, get_varint_field, varint_body}
use z8s.Api.Proto.Resources.{try_proto_to_json, parse_labels, deploy_spec_of}
use z8s.Api.Proto.Encode.{put_varint, encode, read_varint-put_varint}
use z8s.Api.Proto.Loops.{fold_fields, each_field-encode}
use z8s.Api.Proto.Ends.{each_field_ends}
use z8s.Api.Proto.Lookups.{lookups_find}
use z8s.Api.Proto.Hidden.{labels_hidden, deploy_spec_hidden}

read_300 :
    read_varint (new_parser (0xac ∷ 0x02 ∷ 7 ∷ [])) ≡ some (300, record { pos = 2; rest = 7 ∷ [] })
unfolding read_varint
read_300 = refl

read_varint-put_varint_example :
    read_varint (record { pos = 5; rest = put_varint 9 300 ++ 7 ∷ [] })
    ≡ some (300, record { pos = 5 + length (put_varint 9 300); rest = 7 ∷ [] })
read_varint-put_varint_example = read_varint-put_varint 300 5 (7 ∷ []) (omega arith)

-- A deployment's spec: two replicas, a selector and a template.
abbrev spec_fields : List (ℕ × Value)
spec_fields = (1, varint 2) ∷ (2, bytes (1 ∷ [])) ∷ (3, bytes (1 ∷ [])) ∷ []

each_field-encode_example :
    each_field (varint_body 1) (encode spec_fields) none
    ≡ fold_fields (varint_body 1) spec_fields none
unfolding encode put_varint
each_field-encode_example =
    each_field-encode (varint_body 1) spec_fields none (omega arith) (omega arith)

each_field_ends_example :
    while_fields (varint_body 1) (3 + 9) (new_parser (8 ∷ 0xff ∷ [])) none
    ≡ each_field (varint_body 1) (8 ∷ 0xff ∷ []) none
each_field_ends_example = each_field_ends (varint_body 1) (8 ∷ 0xff ∷ []) none 9

lookups_find_example :
    (get_bytes_field (encode spec_fields) 2 ≡ ok none)
    × (get_varint_field (encode spec_fields) 2 ≡ ok none)
unfolding encode put_varint
lookups_find_example = lookups_find spec_fields 2 (omega arith) (omega arith)

deploy_spec_hidden_example :
    deploy_spec_of (encode spec_fields)
    ≡ ok (
        obj (
          entries (
            (codes "replicas", int (pos 2))
            ∷ (codes "selector", empty_obj)
            ∷ (codes "template", empty_obj)
            ∷ [])))
unfolding encode put_varint
deploy_spec_hidden_example =
    deploy_spec_hidden 2 ((2, bytes (1 ∷ [])) ∷ (3, bytes (1 ∷ [])) ∷ []) (omega arith)
      (omega arith)

-- A metadata message: a name, the generation, and one label.
abbrev label_entry : Bytes
label_entry = 0x0a ∷ 0x01 ∷ b'a' ∷ 0x12 ∷ 0x01 ∷ b'b' ∷ []

labels_hidden_example :
    parse_labels (encode ((1, bytes (b'p' ∷ [])) ∷ (7, varint 1) ∷ (11, bytes label_entry) ∷ [])) 11
    ≡ parse_labels (encode ((1, bytes (b'p' ∷ [])) ∷ [])) 11
unfolding encode put_varint
labels_hidden_example =
    labels_hidden ((1, bytes (b'p' ∷ [])) ∷ []) ((11, bytes label_entry) ∷ []) 7 1 11 (omega arith)
      (omega arith) (omega arith) (omega arith)

-- Without the generation the label is found.
label_seen :
    parse_labels (encode ((1, bytes (b'p' ∷ [])) ∷ (11, bytes label_entry) ∷ [])) 11
    ≡ ok ((codes "a", codes "b") ∷ [])
unfolding parse_labels encode put_varint each_field get_string_field next_field lossy Dict.put
    text_eq
label_seen = refl

-- A namespace named "n" as kubectl sends it.
namespace_run :
    try_proto_to_json (
      codes "k8s"
      ++ 0
        ∷ encode (
            (1, bytes (encode ((1, bytes (codes "v1")) ∷ (2, bytes (codes "Namespace")) ∷ [])))
            ∷ (2, bytes (encode ((1, bytes (encode ((1, bytes (codes "n")) ∷ []))) ∷ [])))
            ∷ []))
    ≡ ok (
        some (
          obj (
            entries (
              (codes "apiVersion", str (codes "v1"))
              ∷ (codes "kind", str (codes "Namespace"))
              ∷ (codes "metadata", obj (entries ((codes "name", str (codes "n")) ∷ [])))
              ∷ []))))
unfolding try_proto_to_json encode put_varint each_field get_string_field next_field lossy text_eq
    starts_with
namespace_run = refl
