-- ===== src/Net/Dns/Query/Replies.antt =====
-- src/netmux/dns.rs: what `handle_query` sends.
use z8s.Base.{
  ℕ, ◌+◌, ◌-◌, ◌≤◌, ◌<◌, ◌≡◌, refl, sym, ap, ◌∙◌, ◌⊎◌, inl, inr, Bool, true, false, ◌||◌, Option,
  none, some, List, [], ◌∷◌, arith, ltb, ◌==◌, if◌then◌else◌, Bool-cases, Option-cases, length,
  get_elem?, take, drop, length-take, length-drop, All,
}
use z8s.Base.{take-append_length}
use z8s.Base.Text.{Text, trim_end}
use z8s.Base.Dict
use z8s.Base.Dict.{Dict}
use z8s.Resource.Store.{ResourceStore}
use z8s.Net.Dns.{Bytes, parse_name, make_response, a_record, cname_record, be16, be32}
use z8s.Net.Dns.Offsets.{parse_name_behind}
use mathlib.Core.Path.{subst}
use z8s.Net.Dns.Resolve.{
  ServiceResolution, cluster_ip, external_name, no_service, resolve_service, parse_ipv4,
}
use z8s.Net.Dns.Query.{
  read16, Question, read_as, question_of, answers_to, reply, upstream_or_default, read_question,
  answer_service, answer_known, answer, handle_query,
}

-- A message that answers a query: the id of the query, the bits of a response and of desired
-- recursion, one question, and from byte 12 on, the whole question of the query: its name, which
-- ends at `offset`, and the four bytes of type and class.
abbrev pub Answers : (Text → Text) → Bytes → Bytes → Type 0
Answers to_lowercase query resp =
    (take 2 resp ≡ take 2 query)
    × (get_elem? resp 2 ≡ some 0x81)
    × (take 2 (drop 4 resp) ≡ 0 ∷ 1 ∷ [])
    × ((name : Text) × (offset : ℕ) × (parse_name to_lowercase query 12 ≡ some (name, offset))
        × (12 < offset)
        × (offset + 4 ≤ length query)
        × (take (offset - 8) (drop 12 resp) ≡ take (offset - 8) (drop 12 query)))

response_head :
    (id : ℕ) (rd : Bool) (question : Bytes) (answers : List Bytes) (rcode : ℕ)
    → (take 2 (make_response id rd question answers rcode) ≡ be16 id)
      × (get_elem? (make_response id rd question answers rcode) 2 ≡ some 0x81)
      × (take 2 (drop 4 (make_response id rd question answers rcode)) ≡ 0 ∷ 1 ∷ [])
      × (take (length question) (drop 12 (make_response id rd question answers rcode)) ≡ question)
unfolding make_response
response_head id rd question answers rcode =
    (refl, ground arith, refl, take-append_length question _)

-- What was read of the query is what an answer repeats.
abbrev IsRead : (Text → Text) → Bytes → Question → Type 0
IsRead to_lowercase query q =
    (be16 q.id ≡ take 2 query)
    × ((name : Text) × (offset : ℕ) × (parse_name to_lowercase query 12 ≡ some (name, offset))
        × (12 < offset)
        × (offset + 4 ≤ length query)
        × (q.question_bytes ≡ take (offset - 8) (drop 12 query))
        × (length q.question_bytes ≡ offset - 8))

id_bytes :
    (query : Bytes)
    → All (λ b. b < 256) query
    → 2 ≤ length query
    → be16 (read16 query 0) ≡ take 2 query
id_bytes [] bytes h = absurd (omega arith)
id_bytes (a ∷ []) bytes h = absurd (omega arith)
id_bytes (a ∷ b ∷ query) (ha, (hb, bytes)) h = ground arith

read_as-IsRead :
    (to_lowercase : Text → Text) (query : Bytes) (name : Text) (offset : ℕ)
    → All (λ b. b < 256) query
    → parse_name to_lowercase query 12 ≡ some (name, offset)
    → 12 < offset
    → offset + 4 ≤ length query
    → IsRead to_lowercase query (read_as query name offset)
read_as-IsRead to_lowercase query name offset bytes parsed h long =
    let n : length (take (offset + 4 - 12) (drop 12 query)) ≡ offset + 4 - 12 =
      omega (arith, length-take (offset + 4 - 12) (drop 12 query), length-drop 12 query) in
    let m : offset + 4 - 12 ≡ offset - 8 = omega arith in
    (
      id_bytes query bytes (omega arith),
      (name, offset, parsed, h, long, ap (λ k. take k (drop 12 query)) m, n ∙ m),
    )

question_of-IsRead :
    (to_lowercase : Text → Text) (query : Bytes) (name : Text) (offset : ℕ) (q : Question)
    → All (λ b. b < 256) query
    → parse_name to_lowercase query 12 ≡ some (name, offset)
    → 12 < offset
    → question_of query (name, offset) ≡ some q
    → IsRead to_lowercase query q
question_of-IsRead to_lowercase query name offset q bytes parsed h e =
    elim (Bool-cases (ltb (length query) (offset + 4))) [
      | inl short ↦ absurd (ground (arith, short, e))
      | inr long ↦
          subst (IsRead to_lowercase query)
            (some_eq (read_as query name offset) q (ground (arith, long, e)))
            (read_as-IsRead to_lowercase query name offset bytes parsed h (ground (arith, long)))
    ]
  where
    some_eq : (a b : Question) → some a ≡ some b → a ≡ b
    some_eq a b p = cc

-- A query is ignored, forwarded, or answered.
abbrev pub Outcome :
    (Text → Text) → (Bytes → List Text → Option Bytes) → Bytes → Option Bytes → Type 0
Outcome to_lowercase forward query o =
    (o ≡ none)
    ⊎ (((us : List Text) × (o ≡ forward query us))
        ⊎ ((resp : Bytes) × (o ≡ some resp) × Answers to_lowercase query resp))

module _ (to_lowercase : Text → Text) (forward : Bytes → List Text → Option Bytes)
    (cluster_domain : Text) (store : ResourceStore) (upstream : List Text)
    (dns_records : Dict ℕ) where
  read_question-IsRead :
      (query : Bytes) (q : Question)
      → All (λ b. b < 256) query
      → read_question to_lowercase forward cluster_domain store upstream dns_records query ≡ some q
      → IsRead to_lowercase query q
  unfolding read_question
  read_question-IsRead query q bytes e = elim (Option-cases (parse_name to_lowercase query 12)) [
    | inl refused ↦ absurd (ground (arith, refused, e))
    | inr ((name, offset), read) ↦
        question_of-IsRead to_lowercase query name offset q bytes read
          (parse_name_behind to_lowercase query 12 name offset read) (ground (arith, read, e))
  ]

  reply-Outcome :
      (query : Bytes) (q : Question) (answers : List Bytes) (rcode : ℕ)
      → IsRead to_lowercase query q
      → Outcome to_lowercase forward query (reply q answers rcode)
  reply-Outcome query q answers rcode (id, (name, offset, parsed, h, long, same, n)) =
      let resp : Bytes = make_response q.id q.rd q.question_bytes answers rcode in
      let (h1, h2, h4, h3) = response_head q.id q.rd q.question_bytes answers rcode in
      inr (
        inr (
          make_response q.id q.rd q.question_bytes answers rcode,
          refl,
          (
            h1 ∙ id,
            h2,
            h4,
            (name, offset, parsed, h, long, ap (λ k. take k (drop 12 resp)) (sym n) ∙ h3 ∙ same),
          ),
        ))

  either-Outcome :
      (query : Bytes) (b : Bool) (x y : Option Bytes)
      → Outcome to_lowercase forward query x
      → Outcome to_lowercase forward query y
      → Outcome to_lowercase forward query (if b then x else y)
  either-Outcome query true x y hx hy = hx
  either-Outcome query false x y hx hy = hy

  service-Outcome :
      (query : Bytes) (q : Question) (r : ServiceResolution)
      → IsRead to_lowercase query q
      → Outcome to_lowercase forward query
          (answer_service to_lowercase forward cluster_domain store upstream dns_records query q r)
  service-Outcome query q (cluster_ip ip) h = elim (Option-cases (parse_ipv4 ip)) [
    | inl e ↦ rw e (inl refl)
    | inr (ip_bytes, e) ↦ rw e (reply-Outcome query q (answers_to q (a_record q.name ip_bytes)) 0 h)
  ]
  service-Outcome query q (external_name name) h = elim (Option-cases (parse_ipv4 name)) [
    | inl e ↦ rw e (reply-Outcome query q (answers_to q (cname_record q.name name)) 0 h)
    | inr (ip_bytes, e) ↦ rw e (reply-Outcome query q (answers_to q (a_record q.name ip_bytes)) 0 h)
  ]
  service-Outcome query q no_service h =
      either-Outcome query q.rd (forward query (upstream_or_default upstream)) (reply q [] 3)
        (inr (inl (upstream_or_default upstream, refl))) (reply-Outcome query q [] 3 h)

  known-Outcome :
      (query : Bytes) (q : Question) (r : Option ℕ)
      → IsRead to_lowercase query q
      → Outcome to_lowercase forward query
          (answer_known to_lowercase forward cluster_domain store upstream dns_records query q r)
  known-Outcome query q none h =
      service-Outcome query q (resolve_service cluster_domain q.name store) h
  known-Outcome query q (some ip) h =
      reply-Outcome query q (answers_to q (a_record q.name (be32 ip))) 0 h

  answer-Outcome :
      (query : Bytes) (q : Question)
      → IsRead to_lowercase query q
      → Outcome to_lowercase forward query
          (answer to_lowercase forward cluster_domain store upstream dns_records query q)
  answer-Outcome query q h = elim (Bool-cases (q.qtype == 1 || (q.qtype == 28 || q.qtype == 255))) [
    | inl e ↦ rw e (known-Outcome query q (Dict.get (trim_end b'.' q.name) dns_records) h)
    | inr e ↦ rw e (inr (inl (upstream, refl)))
  ]

  -- Every query of bytes is ignored, forwarded, or answered with a response that has its id, counts
  -- one question, and repeats the whole question of the query, from its name to its class. The
  -- response says that recursion is desired even if the query did not.
  pub handle_query_outcomes :
      (query : Bytes)
      → All (λ b. b < 256) query
      → Outcome to_lowercase forward query
          (handle_query to_lowercase forward cluster_domain store upstream dns_records query)
  unfolding handle_query
  handle_query_outcomes query bytes =
      elim (Option-cases
        (read_question to_lowercase forward cluster_domain store upstream dns_records query)) [
          | inl e ↦ rw e (inl refl)
          | inr (q, e) ↦ rw e (answer-Outcome query q (read_question-IsRead query q bytes e))
        ]
