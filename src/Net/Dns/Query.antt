-- ===== src/Net/Dns/Query.antt =====
-- src/netmux/dns.rs: `handle_query`. Parameters are what `forward` gets from the network and
-- `str::to_lowercase`; the configured cluster domain and the records are arguments.
pub mod Replies
pub mod Lookups
use z8s.Base.{
  ℕ, zero, suc, ◌+◌, ◌-◌, ◌*◌, ◌/◌, ◌%◌, ◌^◌, ◌≤◌, ◌<◌, min, max, ◌≡◌, refl, sym, ap, ◌∙◌, ◌≢◌, ◌↔◌,
  ◌⊎◌, inl, inr, Bool, true, false, not, ◌&&◌, ◌||◌, Option, none, some, List, [], ◌∷◌, ◌++◌, map,
  arith, dec_lt, ltb, leb, ◌==◌, if◌then◌else◌, Bool-cases, Option-cases, unwrap_or, is_some,
  length, get_elem?, take, drop, length-append, any, all, All, All-append,
}
use z8s.Base.{◌>>=◌}
use z8s.Base.Text.{Text, codes, trim_end}
use z8s.Base.Dict
use z8s.Base.Dict.{Dict}
use z8s.Resource.Store.{ResourceStore}
use z8s.Net.Dns.{Bytes, parse_name, make_response, a_record, cname_record, be32}
use z8s.Net.Dns.Resolve.{
  ServiceResolution, cluster_ip, external_name, no_service, resolve_service, parse_ipv4,
}

abbrev pub byte_at : Bytes → ℕ → ℕ
byte_at buf i = unwrap_or (get_elem? buf i) 0

-- `u16::from_be_bytes` of two bytes that are there.
abbrev pub read16 : Bytes → ℕ → ℕ
read16 buf i = byte_at buf i * 256 + byte_at buf (i + 1)

-- What `handle_query` has read of a query.
pub record Question : Type 0 where
  pub id : ℕ
  pub rd : Bool
  pub name : Text
  pub qtype : ℕ
  pub question_bytes : Bytes

abbrev pub read_as : Bytes → Text → ℕ → Question
read_as query name offset = record {
  id = read16 query 0;
  rd = read16 query 2 / 0x0100 % 2 == 1;
  name = name;
  qtype = read16 query offset;
  question_bytes = take (offset + 4 - 12) (drop 12 query);
}

abbrev pub question_of : Bytes → Text × ℕ → Option Question
question_of query (name, offset) =
    if ltb (length query) (offset + 4) then none else some (read_as query name offset)

-- AAAA queries get no answers.
abbrev pub answers_to : Question → Bytes → List Bytes
answers_to q answer = if q.qtype == 28 then [] else answer ∷ []

abbrev pub reply : Question → List Bytes → ℕ → Option Bytes
reply q answers rcode = some (make_response q.id q.rd q.question_bytes answers rcode)

abbrev pub reply_external : Question → Text → Option Bytes → Option Bytes
reply_external q name none = reply q (answers_to q (cname_record q.name name)) 0
reply_external q name (some ip_bytes) = reply q (answers_to q (a_record q.name ip_bytes)) 0

-- The resolvers of /etc/resolv.conf, or the defaults.
abbrev pub upstream_or_default : List Text → List Text
upstream_or_default [] = codes "1.1.1.1:53" ∷ codes "8.8.8.8:53" ∷ []
upstream_or_default (u ∷ us) = u ∷ us

module _ (to_lowercase : Text → Text) (forward : Bytes → List Text → Option Bytes)
    (cluster_domain : Text) (store : ResourceStore) (upstream : List Text)
    (dns_records : Dict ℕ) where
  -- The header's checks and the question.
  unfoldable pub read_question : Bytes → Option Question
  read_question query =
      if ltb (length query) 12
      then none
      else if read16 query 2 / 0x8000 % 2 == 1
      then none
      else if read16 query 4 == 0
      then none
      else parse_name to_lowercase query 12 >>= question_of query

  abbrev pub answer_service : Bytes → Question → ServiceResolution → Option Bytes
  answer_service query q (cluster_ip ip) =
      parse_ipv4 ip >>= λ ip_bytes. reply q (answers_to q (a_record q.name ip_bytes)) 0
  answer_service query q (external_name name) = reply_external q name (parse_ipv4 name)
  answer_service query q no_service =
      if q.rd then forward query (upstream_or_default upstream) else reply q [] 3

  -- A record's address is its u32 value.
  abbrev pub answer_known : Bytes → Question → Option ℕ → Option Bytes
  answer_known query q (some ip) = reply q (answers_to q (a_record q.name (be32 ip))) 0
  answer_known query q none = answer_service query q (resolve_service cluster_domain q.name store)

  abbrev pub answer : Bytes → Question → Option Bytes
  answer query q =
      if q.qtype == 1 || (q.qtype == 28 || q.qtype == 255)
      then answer_known query q (Dict.get (trim_end b'.' q.name) dns_records)
      else forward query upstream

  -- `handle_query`.
  unfoldable pub handle_query : Bytes → Option Bytes
  unfolding read_question
  handle_query query = read_question query >>= answer query
