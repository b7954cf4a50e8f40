-- ===== src/Net/Dns/Query/Lookups.antt =====
-- src/netmux/dns.rs: a query for a service, from its bytes to the bytes of the answer.
use z8s.Base.{
  ℕ, suc, ◌+◌, ◌-◌, ◌/◌, ◌%◌, ◌≤◌, ◌<◌, ◌≡◌, refl, sym, ap, ◌∙◌, Bool, true, false, ◌||◌, Option,
  none, some, List, [], ◌∷◌, ◌++◌, map, arith, ltb, ◌==◌, if◌then◌else◌, length, take,
  length-append, All,
}
use z8s.Base.{take-append_length, get_elem?-append_length, get_elem?-append_suc}
use mathlib.Core.List.{append_assoc, append-nil}
use z8s.Base.Text.{Text, trim_end}
use z8s.Base.Text.Split.{join}
use z8s.Base.Dict
use z8s.Base.Dict.{Dict}
use z8s.Resource.Store.{ResourceStore}
use z8s.Net.Dns.{Bytes, parse_name, make_response, a_record, be16, encode_name, concat}
use z8s.Net.Dns.Names.{IsLabel, parse_name-encode_name}
use z8s.Net.Dns.Resolve.{cluster_ip, resolve_service, parse_ipv4}
use z8s.Net.Dns.Query.{read16, Question, read_as, read_question, handle_query}

abbrev pub query_head : ℕ → ℕ → Bytes
query_head id flags = be16 id ++ (be16 flags ++ (be16 1 ++ (be16 0 ++ (be16 0 ++ be16 0))))

abbrev pub question_for : Text → ℕ → Bytes
question_for name qtype = encode_name name ++ (be16 qtype ++ be16 1)

-- A query with one question of class IN, as a resolver sends it.
abbrev pub query_for : ℕ → ℕ → Text → ℕ → Bytes
query_for id flags name qtype = query_head id flags ++ question_for name qtype

read16_type :
    (pre : Bytes) (n : ℕ) (post : Bytes)
    → n < 65536
    → read16 (pre ++ (be16 n ++ post)) (length pre) ≡ n
read16_type pre n post h =
    let one : length pre + 1 ≡ suc (length pre) = omega arith in
    rw
      (
        get_elem?-append_length pre (n / 256 % 256) (n % 256 ∷ post),
        one,
        get_elem?-append_suc pre (n / 256 % 256) (n % 256) post,
      )
      (omega (arith, h))

take_all : (xs : Bytes) (n : ℕ) → n ≡ length xs → take n xs ≡ xs
take_all xs n e =
    ap (λ k. take k xs) e ∙ ap (take (length xs)) (sym (append-nil xs)) ∙ take-append_length xs []

type_read :
    (id flags qtype : ℕ) (name : Text)
    → qtype < 65536
    → read16 (query_for id flags name qtype) (12 + length (encode_name name)) ≡ qtype
type_read id flags qtype name h =
    let pre : Bytes = query_head id flags ++ encode_name name in
    let at : 12 + length (encode_name name) ≡ length pre =
      omega (arith, length-append (query_head id flags) (encode_name name)) in
    ap (λ (t : Bytes). read16 t (12 + length (encode_name name)))
      (sym (append_assoc (query_head id flags) (encode_name name) (be16 qtype ++ be16 1)))
    ∙ ap (read16 (pre ++ (be16 qtype ++ be16 1))) at
    ∙ read16_type pre qtype (be16 1) h

abbrev read_with : ℕ → Bool → Text → ℕ → Bytes → Question
read_with id rd name qtype question = record {
  id = id;
  rd = rd;
  name = name;
  qtype = qtype;
  question_bytes = question;
}

-- What is read of the query behind its name.
read_query :
    (id flags qtype : ℕ) (name : Text)
    → id < 65536
    → qtype < 65536
    → read_as (query_for id flags name qtype) name (12 + length (encode_name name)) ≡ record {
      id = id;
      rd = read16 (query_for id flags name qtype) 2 / 0x0100 % 2 == 1;
      name = name;
      qtype = qtype;
      question_bytes = question_for name qtype;
    }
read_query id flags qtype name hi hq =
    let query : Bytes = query_for id flags name qtype in
    let rd : Bool = read16 query 2 / 0x0100 % 2 == 1 in
    let k : ℕ = length (encode_name name) in
    ap
      (λ (i : ℕ).
        read_with i rd name (read16 query (12 + k))
          (take (12 + k + 4 - 12) (question_for name qtype)))
      (omega (arith, hi))
    ∙ ap (λ (t : ℕ). read_with id rd name t (take (12 + k + 4 - 12) (question_for name qtype)))
        (type_read id flags qtype name hq)
    ∙ ap (read_with id rd name qtype) (
        take_all (question_for name qtype) (12 + k + 4 - 12)
          (omega (arith, length-append (encode_name name) (be16 qtype ++ be16 1))))

-- The bytes of an answer without an error and with no other question than the one of the query: id,
-- flags QR and RD, and RA as the query has RD, one question, the number of answers, no more records.
abbrev pub answer_bytes : ℕ → Bool → ℕ → Bytes → Bytes → Bytes
answer_bytes id rd count question records =
    (id / 256 % 256)
    ∷ (id % 256)
    ∷ 0x81
    ∷ (if rd then 0x80 else 0)
    ∷ 0
    ∷ 1
    ∷ 0
    ∷ count
    ∷ 0
    ∷ 0
    ∷ 0
    ∷ 0
    ∷ (question ++ records)

-- An A record of class IN for 30 seconds, with four bytes of address.
abbrev pub address_record : Text → Bytes → Bytes
address_record name ip_bytes =
    encode_name name ++ (0 ∷ 1 ∷ 0 ∷ 1 ∷ 0 ∷ 0 ∷ 0 ∷ 30 ∷ 0 ∷ 4 ∷ ip_bytes)

address_bytes :
    (id : ℕ) (rd : Bool) (question : Bytes) (name : Text) (ip_bytes : Bytes)
    → make_response id rd question (a_record name ip_bytes ∷ []) 0
      ≡ answer_bytes id rd 1 question (address_record name ip_bytes)
unfolding make_response concat a_record
address_bytes id true question name ip_bytes =
    ap (λ r. answer_bytes id true 1 question r) (append-nil (address_record name ip_bytes))
address_bytes id false question name ip_bytes =
    ap (λ r. answer_bytes id false 1 question r) (append-nil (address_record name ip_bytes))

no_record_bytes :
    (id : ℕ) (rd : Bool) (question : Bytes)
    → make_response id rd question [] 0 ≡ answer_bytes id rd 0 question []
unfolding make_response concat
no_record_bytes id true question = refl
no_record_bytes id false question = refl

module _ (to_lowercase : Text → Text) (forward : Bytes → List Text → Option Bytes)
    (cluster_domain : Text) (store : ResourceStore) (upstream : List Text)
    (dns_records : Dict ℕ) where
  checks_pass :
      (query : Bytes) (name : Text) (offset : ℕ)
      → 12 ≤ length query
      → read16 query 2 / 0x8000 % 2 ≡ 0
      → read16 query 4 ≡ 1
      → parse_name to_lowercase query 12 ≡ some (name, offset)
      → offset + 4 ≤ length query
      → read_question to_lowercase forward cluster_domain store upstream dns_records query
        ≡ some (read_as query name offset)
  unfolding read_question
  checks_pass query name offset long bit one parsed fits =
      let first : ltb (length query) 12 ≡ false = ground (arith, long) in
      let last : ltb (length query) (offset + 4) ≡ false = ground (arith, fits) in
      rw (read_question, first, bit, one, parsed, last) refl

  question_read :
      (id flags qtype : ℕ) (ls : List Text)
      → id < 65536
      → flags < 0x8000
      → qtype < 65536
      → All IsLabel ls
      → length ls ≤ 50
      → map to_lowercase ls ≡ ls
      → read_question to_lowercase forward cluster_domain store upstream dns_records
          (query_for id flags (join b'.' ls) qtype)
        ≡ some (
            read_with id
              (flags / 0x0100 % 2 == 1)
              (join b'.' ls)
              qtype
              (question_for (join b'.' ls) qtype))
  unfolding read_question
  question_read id flags qtype ls hi hf hq hl fits low =
      let name : Text = join b'.' ls in
      let query : Bytes = query_for id flags name qtype in
      let parsed : parse_name to_lowercase query 12 ≡ some (name, 12 + length (encode_name name)) =
        parse_name-encode_name to_lowercase ls (query_head id flags) (be16 qtype ++ be16 1) hl fits
        ∙ ap (λ (t : List Text). some (join b'.' t, 12 + length (encode_name name))) low in
      let flags_read : read16 query 2 ≡ flags = omega (arith, hf) in
      let size : length (question_for name qtype) ≡ length (encode_name name) + 4 =
        length-append (encode_name name) (be16 qtype ++ be16 1) in
      checks_pass query name (12 + length (encode_name name)) (omega (arith, size))
        (omega (arith, hf)) refl parsed (omega (arith, size))
      ∙ ap (λ (q : Question). some q) (read_query id flags qtype name hi hq)
      ∙ ap
          (λ (f : ℕ).
            some (read_with id (f / 0x0100 % 2 == 1) name qtype (question_for name qtype)))
          flags_read

  resolved_answer :
      (id flags qtype : ℕ) (ls : List Text) (ip : Text) (ip_bytes : Bytes)
      → id < 65536
      → flags < 0x8000
      → (qtype == 1 || (qtype == 28 || qtype == 255)) ≡ true
      → qtype < 65536
      → All IsLabel ls
      → length ls ≤ 50
      → map to_lowercase ls ≡ ls
      → Dict.get (trim_end b'.' (join b'.' ls)) dns_records ≡ none
      → resolve_service cluster_domain (join b'.' ls) store ≡ cluster_ip ip
      → parse_ipv4 ip ≡ some ip_bytes
      → handle_query to_lowercase forward cluster_domain store upstream dns_records
          (query_for id flags (join b'.' ls) qtype)
        ≡ some (
            make_response id
              (flags / 0x0100 % 2 == 1)
              (question_for (join b'.' ls) qtype)
              (if qtype == 28 then [] else a_record (join b'.' ls) ip_bytes ∷ [])
              0)
  unfolding handle_query
  resolved_answer id flags qtype ls ip ip_bytes hi hf kind hq hl fits low unknown found parsed =
      rw
        (
          handle_query,
          question_read id flags qtype ls hi hf hq hl fits low,
          kind,
          unknown,
          found,
          parsed,
        )
        refl

  -- An A query for a service with a cluster IP, in lower case and of at most 50 labels, is answered
  -- with exactly the bytes of one A record of this name and address, behind its own id and question,
  -- and an AAAA query with no record and no error, if no ingress has the name. Flags, counts, type,
  -- class, time to live and length are written out byte by byte.
  pub service_answered :
      (id flags : ℕ) (ls : List Text) (ip : Text) (ip_bytes : Bytes)
      → id < 65536
      → flags < 0x8000
      → All IsLabel ls
      → length ls ≤ 50
      → map to_lowercase ls ≡ ls
      → Dict.get (trim_end b'.' (join b'.' ls)) dns_records ≡ none
      → resolve_service cluster_domain (join b'.' ls) store ≡ cluster_ip ip
      → parse_ipv4 ip ≡ some ip_bytes
      → (handle_query to_lowercase forward cluster_domain store upstream dns_records
            (query_for id flags (join b'.' ls) 1)
          ≡ some (
              answer_bytes id
                (flags / 0x0100 % 2 == 1)
                1
                (question_for (join b'.' ls) 1)
                (address_record (join b'.' ls) ip_bytes)))
        × (handle_query to_lowercase forward cluster_domain store upstream dns_records
              (query_for id flags (join b'.' ls) 28)
            ≡ some
                (answer_bytes id (flags / 0x0100 % 2 == 1) 0 (question_for (join b'.' ls) 28) []))
  service_answered id flags ls ip ip_bytes hi hf hl fits low unknown found parsed = (
    resolved_answer id flags 1 ls ip ip_bytes hi hf refl (omega arith) hl fits low unknown found
          parsed
        ∙ ap (λ (r : Bytes). some r)
            (address_bytes id (flags / 0x0100 % 2 == 1) (question_for (join b'.' ls) 1)
              (join b'.' ls) ip_bytes),
    resolved_answer id flags 28 ls ip ip_bytes hi hf refl (omega arith) hl fits low unknown found
          parsed
        ∙ ap (λ (r : Bytes). some r)
            (no_record_bytes id (flags / 0x0100 % 2 == 1) (question_for (join b'.' ls) 28)),
  )
