-- ===== src/Net/Dns/Names.antt =====
-- src/netmux/dns.rs: `parse_name` reads what `encode_name` writes, follows pointers, and ends.
use z8s.Base.{
  ℕ, zero, suc, ◌+◌, ◌-◌, ◌/◌, ◌%◌, ◌≤◌, ◌<◌, ◌≡◌, refl, sym, ap, ◌∙◌, Option, none, some, List, [],
  ◌∷◌, ◌++◌, map, arith, unwrap_or, length, get_elem?, length-append, All,
}
use z8s.Base.Text.{Text}
use z8s.Base.Text.Split.{Lacks, split, join, split-join}
use z8s.Base.Text.Utf8.{from_utf8}
use z8s.Net.Dns.{
  Bytes, root, pointer, label, part_of, push_label, parse_from, parse_name, join_labels,
  encode_label, encode_labels, encode_name, be16,
}
use z8s.Base.{take-append_length, get_elem?-append_length, get_elem?-append_suc, drop-append_suc}
use mathlib.Core.List.{append_assoc, append-nil}

-- A label: UTF-8 of 1 to 191 bytes without a dot.
abbrev pub IsLabel : Text → Type 0
IsLabel l = (0 < length l) × (length l < 0xC0) × Lacks b'.' l × (from_utf8 l ≡ some l)

unfoldable push_labels : List Text → Option (List Text × ℕ) → Option (List Text × ℕ)
push_labels [] r = r
push_labels (l ∷ ls) r = push_label l (push_labels ls r)

-- The labels as they stand in a packet, without the end of the name.
unfoldable pub spell : List Text → Bytes
spell [] = []
spell (l ∷ ls) = encode_label l ++ spell ls

plus_one : (n : ℕ) → n + 1 ≡ suc n
plus_one n = omega arith

length-encode_label : (l : Text) → IsLabel l → length (encode_label l) ≡ suc (length l)
length-encode_label [] (h, short, dots, valid) = absurd (omega arith)
length-encode_label (c ∷ s) h = refl

-- What stands behind `pre`: a label, the end, or a pointer.
label_there :
    (pre l rest : Bytes)
    → IsLabel l
    → part_of
        (pre ++ (encode_label l ++ rest))
        (length pre)
        (get_elem? (pre ++ (encode_label l ++ rest)) (length pre))
      ≡ label l
label_there pre [] rest (h, short, dots, valid) = absurd (omega arith)
label_there pre (c ∷ s) rest (h, short, dots, valid) =
    rw (get_elem?-append_length pre (length (c ∷ s) % 256) ((c ∷ s) ++ rest)) (
      ground (
        arith,
        plus_one (length pre),
        drop-append_suc pre (length (c ∷ s) % 256) ((c ∷ s) ++ rest),
        take-append_length (c ∷ s) rest,
        valid,
        length-append pre (encode_label (c ∷ s) ++ rest),
        length-append (c ∷ s) rest,
      ))

root_there :
    (pre rest : Bytes)
    → part_of (pre ++ (0 ∷ rest)) (length pre) (get_elem? (pre ++ (0 ∷ rest)) (length pre)) ≡ root
root_there pre rest = rw (get_elem?-append_length pre 0 rest) refl

pointer_there :
    (pre rest : Bytes) (t : ℕ)
    → t < 0x4000
    → part_of
        (pre ++ (be16 (0xC000 + t) ++ rest))
        (length pre)
        (get_elem? (pre ++ (be16 (0xC000 + t) ++ rest)) (length pre))
      ≡ pointer t
pointer_there pre rest t h =
    rw (get_elem?-append_length pre ((0xC000 + t) / 256 % 256) ((0xC000 + t) % 256 ∷ rest)) (
      ground (
        arith,
        plus_one (length pre),
        get_elem?-append_suc pre ((0xC000 + t) / 256 % 256) ((0xC000 + t) % 256) rest,
      ))

encode_labels-spell : (ls : List Text) → encode_labels ls ≡ spell ls ++ (0 ∷ [])
unfolding encode_labels spell
encode_labels-spell [] = refl
encode_labels-spell (l ∷ ls) =
    ap (λ t. encode_label l ++ t) (encode_labels-spell ls)
    ∙ sym (append_assoc (encode_label l) (spell ls) (0 ∷ []))

no_dots : (ls : List Text) → All IsLabel ls → All (Lacks b'.') ls
no_dots [] h = tt
no_dots (l ∷ ls) ((h, short, dots, valid), hs) = (dots, no_dots ls hs)

-- `encode_name` writes the labels of the name and its end.
encode_name-join :
    (ls : List Text) → All IsLabel ls → encode_name (join b'.' ls) ≡ spell ls ++ (0 ∷ [])
unfolding encode_name spell split join
encode_name-join [] h = refl
encode_name-join (l ∷ ls) h =
    ap encode_labels (split-join b'.' l ls (no_dots (l ∷ ls) h)) ∙ encode_labels-spell (l ∷ ls)

push_labels_found :
    (ls ms : List Text) (offset : ℕ) → push_labels ls (some (ms, offset)) ≡ some (ls ++ ms, offset)
unfolding push_labels
push_labels_found [] ms offset = refl
push_labels_found (l ∷ ls) ms offset = rw (push_labels_found ls ms offset) refl

module _ (to_lowercase : Text → Text) where
  -- One round of the loop.
  round_root :
      (steps : ℕ) (buf : Bytes) (cur : ℕ) (jumped : Option ℕ)
      → part_of buf cur (get_elem? buf cur) ≡ root
      → parse_from to_lowercase (suc steps) buf cur jumped ≡ some ([], unwrap_or jumped (cur + 1))
  unfolding parse_from
  round_root steps buf cur jumped e = rw (parse_from, e) refl

  round_pointer :
      (steps : ℕ) (buf : Bytes) (cur : ℕ) (jumped : Option ℕ) (t : ℕ)
      → part_of buf cur (get_elem? buf cur) ≡ pointer t
      → parse_from to_lowercase (suc steps) buf cur jumped
        ≡ parse_from to_lowercase steps buf t (some (unwrap_or jumped (cur + 2)))
  unfolding parse_from
  round_pointer steps buf cur jumped t e = rw (parse_from, e) refl

  round_label :
      (steps : ℕ) (buf : Bytes) (cur : ℕ) (jumped : Option ℕ) (l : Text)
      → part_of buf cur (get_elem? buf cur) ≡ label l
      → parse_from to_lowercase (suc steps) buf cur jumped
        ≡ push_label
            (to_lowercase l)
            (parse_from to_lowercase steps buf (cur + 1 + length l) jumped)
  unfolding parse_from
  round_label steps buf cur jumped l e = rw (parse_from, e) refl

  -- The labels that stand behind `pre`, and then what stands behind them.
  read_labels :
      (ls : List Text) (buf pre post : Bytes) (n steps cur : ℕ) (jumped : Option ℕ)
      → All IsLabel ls
      → buf ≡ pre ++ (spell ls ++ post)
      → n ≡ length ls + steps
      → cur ≡ length pre
      → parse_from to_lowercase n buf cur jumped
        ≡ push_labels
            (map to_lowercase ls)
            (parse_from to_lowercase steps buf (cur + length (spell ls)) jumped)
  unfolding spell push_labels
  read_labels [] buf pre post n steps cur jumped h eb en ec =
      ap (λ (k : ℕ × ℕ). parse_from to_lowercase k.0 buf k.1 jumped) (ground (arith, en))
  read_labels (l ∷ ls) buf pre post zero steps cur jumped h eb en ec = absurd (omega arith)
  read_labels (l ∷ ls) buf pre post (suc n) steps cur jumped (h, hs) eb en ec =
      let near : buf ≡ pre ++ (encode_label l ++ (spell ls ++ post)) =
        eb ∙ ap (λ (t : Bytes). pre ++ t) (append_assoc (encode_label l) (spell ls) post) in
      let far : cur + 1 + length l ≡ length (pre ++ encode_label l) =
        omega (arith, ec, length-append pre (encode_label l), length-encode_label l h) in
      round_label n buf cur jumped l (rw (ec, near) (label_there pre l (spell ls ++ post) h))
      ∙ ap (push_label (to_lowercase l)) (
          read_labels ls buf (pre ++ encode_label l) post n steps (cur + 1 + length l) jumped hs
            (near ∙ sym (append_assoc pre (encode_label l) (spell ls ++ post))) (omega (arith, en))
            far
          ∙ ap (λ k. push_labels (map to_lowercase ls) (parse_from to_lowercase steps buf k jumped))
              (omega (arith, length-append (encode_label l) (spell ls), length-encode_label l h)))

  -- A name that is written out: its labels and the end.
  read_name :
      (ls : List Text) (buf pre post : Bytes) (n cur : ℕ) (jumped : Option ℕ)
      → All IsLabel ls
      → buf ≡ pre ++ (spell ls ++ (0 ∷ post))
      → length ls < n
      → cur ≡ length pre
      → parse_from to_lowercase n buf cur jumped
        ≡ some (map to_lowercase ls, unwrap_or jumped (cur + length (spell ls) + 1))
  read_name ls buf pre post n cur jumped h eb fits ec =
      let k : ℕ = n - length ls - 1 in
      let there : buf ≡ (pre ++ spell ls) ++ (0 ∷ post) =
        eb ∙ sym (append_assoc pre (spell ls) (0 ∷ post)) in
      let at : cur + length (spell ls) ≡ length (pre ++ spell ls) =
        omega (arith, ec, length-append pre (spell ls)) in
      read_labels ls buf pre (0 ∷ post) n (suc k) cur jumped h eb (omega (arith, fits)) ec
      ∙ ap (push_labels (map to_lowercase ls)) (
          round_root k buf (cur + length (spell ls)) jumped
            (rw (at, there) (root_there (pre ++ spell ls) post)))
      ∙ push_labels_found (map to_lowercase ls) [] (unwrap_or jumped (cur + length (spell ls) + 1))
      ∙ ap (λ (t : List Text). some (t, unwrap_or jumped (cur + length (spell ls) + 1)))
          (append-nil (map to_lowercase ls))

  -- A name of at most 50 labels that `encode_name` wrote anywhere in a packet is read back, in
  -- lower case, and the offset is then behind it.
  pub parse_name-encode_name :
      (ls : List Text) (pre post : Bytes)
      → All IsLabel ls
      → length ls ≤ 50
      → parse_name to_lowercase (pre ++ (encode_name (join b'.' ls) ++ post)) (length pre)
        ≡ some (join b'.' (map to_lowercase ls), length pre + length (encode_name (join b'.' ls)))
  unfolding parse_name
  parse_name-encode_name ls pre post h fits =
      let e = encode_name-join ls h in
      let buf : Bytes = pre ++ (encode_name (join b'.' ls) ++ post) in
      let there : buf ≡ pre ++ (spell ls ++ (0 ∷ post)) =
        ap (λ (t : Bytes). pre ++ (t ++ post)) e
        ∙ ap (λ t. pre ++ t) (append_assoc (spell ls) (0 ∷ []) post) in
      ap (join_labels to_lowercase)
        (read_name ls buf pre post 51 (length pre) none h there (omega (arith, fits)) refl)
      ∙ ap (λ k. some (join b'.' (map to_lowercase ls), k))
          (omega (arith, ap length e, length-append (spell ls) (0 ∷ [])))

  -- A name that ends in a pointer is read on where the pointer leads, and the offset is behind the
  -- pointer.
  pub parse_name_compressed :
      (ls ms : List Text) (buf pre post far_pre far_post : Bytes)
      → All IsLabel ls
      → All IsLabel ms
      → length ls + length ms < 50
      → length far_pre < 0x4000
      → buf ≡ pre ++ (spell ls ++ (be16 (0xC000 + length far_pre) ++ post))
      → buf ≡ far_pre ++ (encode_name (join b'.' ms) ++ far_post)
      → parse_name to_lowercase buf (length pre)
        ≡ some (
          join b'.' (map to_lowercase ls ++ map to_lowercase ms),
          length pre + length (spell ls) + 2,
        )
  unfolding parse_name
  parse_name_compressed ls ms buf pre post far_pre far_post h hm fits near eb ef =
      let cur : ℕ = length pre + length (spell ls) in
      let there : buf ≡ (pre ++ spell ls) ++ (be16 (0xC000 + length far_pre) ++ post) =
        eb ∙ sym (append_assoc pre (spell ls) (be16 (0xC000 + length far_pre) ++ post)) in
      let at : cur ≡ length (pre ++ spell ls) = omega (arith, length-append pre (spell ls)) in
      let far : buf ≡ far_pre ++ (spell ms ++ (0 ∷ far_post)) =
        ef
        ∙ ap (λ (t : Bytes). far_pre ++ (t ++ far_post)) (encode_name-join ms hm)
        ∙ ap (λ t. far_pre ++ t) (append_assoc (spell ms) (0 ∷ []) far_post) in
      let k : ℕ = 50 - length ls in
      ap (join_labels to_lowercase) (
        read_labels ls buf pre (be16 (0xC000 + length far_pre) ++ post) 51 (suc k) (length pre) none
          h eb (omega (arith, fits)) refl
        ∙ ap (push_labels (map to_lowercase ls)) (
            round_pointer k buf cur none (length far_pre)
              (rw (at, there) (pointer_there (pre ++ spell ls) post (length far_pre) near))
            ∙ read_name ms buf far_pre far_post k (length far_pre) (some (cur + 2)) hm far
                (omega (arith, fits)) refl)
        ∙ push_labels_found (map to_lowercase ls) (map to_lowercase ms) (cur + 2))
