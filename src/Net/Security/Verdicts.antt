-- ===== src/Net/Security/Verdicts.antt =====
-- `apply_nsg` of src/netmux/mod.rs: which packets the rules that it sends let through.
use z8s.Base.{
  ℕ, ◌≡◌, refl, Bool, true, false, ◌&&◌, Option, none, some, List, [], ◌∷◌, ◌++◌, leb,
  if◌then◌else◌, unwrap_or, is_some, any, All,
}
use z8s.Base.Text.{Text, codes, text_eq}
use z8s.Net.Nft.{
  Kernel, Batch, Message, Expr, add_rule, snetwork, dnetwork, accept, filter_table, nsg_rules,
}
use z8s.Resource.{NsgRule}

abbrev pub or_else : Option Bool → Option Bool → Option Bool
or_else none o = o
or_else (some v) o = some v

pub or_else_assoc : (a b c : Option Bool) → or_else (or_else a b) c ≡ or_else a (or_else b c)
or_else_assoc none b c = refl
or_else_assoc (some v) b c = refl

module _ (k : Kernel) (covers : ℕ × ℕ → ℕ → Bool) where
  abbrev pub net : Text → ℕ × ℕ
  net c = unwrap_or (k.parse_network c) (0, 0)

  abbrev pub Parses : Text → Type 0
  Parses c = k.parse_network c ≡ some (net c)

  -- Every network of a rule can be read.
  abbrev pub IsReadable : NsgRule → Type 0
  IsReadable r = All Parses r.src_cidrs × All Parses r.dst_cidrs

  abbrev pub pair_batch : Expr → Text → Text → Batch
  pair_batch v src dst =
      add_rule filter_table nsg_rules (snetwork (net src) ∷ dnetwork (net dst) ∷ v ∷ []) ∷ []

  abbrev pub dst_batches : Expr → Text → List Text → List Batch
  dst_batches v src [] = []
  dst_batches v src (dst ∷ dsts) = pair_batch v src dst ∷ dst_batches v src dsts

  abbrev pub pair_batches : Expr → List Text → List Text → List Batch
  pair_batches v [] dsts = []
  pair_batches v (src ∷ srcs) dsts = dst_batches v src dsts ++ pair_batches v srcs dsts

  abbrev pub nsg_batches : NsgRule → List Batch
  nsg_batches r =
      if text_eq r.action (codes "deny")
      then pair_batches Expr.drop r.src_cidrs r.dst_cidrs
      else if text_eq r.action (codes "allow")
      then pair_batches accept r.src_cidrs r.dst_cidrs
      else []

  abbrev pub all_batches : List NsgRule → List Batch
  all_batches [] = []
  all_batches (r ∷ rules) = nsg_batches r ++ all_batches rules

  -- What one rule of the chain decides of a packet: a rule applies if both networks cover it.
  abbrev pub decides : ℕ → ℕ → List Expr → Option Bool
  decides s d (snetwork n ∷ dnetwork m ∷ accept ∷ []) =
      if covers n s && covers m d then some true else none
  decides s d (snetwork n ∷ dnetwork m ∷ Expr.drop ∷ []) =
      if covers n s && covers m d then some false else none
  decides s d _ = none

  abbrev pub message_decides : ℕ → ℕ → Message → Option Bool
  message_decides s d (add_rule table chain exprs) = decides s d exprs
  message_decides s d _ = none

  abbrev pub batch_decides : ℕ → ℕ → Batch → Option Bool
  batch_decides s d [] = none
  batch_decides s d (m ∷ ms) = or_else (message_decides s d m) (batch_decides s d ms)

  -- The first rule that applies decides.
  unfoldable pub verdict : ℕ → ℕ → List Batch → Option Bool
  verdict s d [] = none
  verdict s d (b ∷ bs) = or_else (batch_decides s d b) (verdict s d bs)

  -- Whether a security rule with a known action applies, and what it says then.
  abbrev pub says : ℕ → ℕ → NsgRule → Option Bool
  says s d r =
      if any (λ c. covers (net c) s) r.src_cidrs && any (λ c. covers (net c) d) r.dst_cidrs
      then (if text_eq r.action (codes "deny")
          then some false
          else if text_eq r.action (codes "allow")
          then some true
          else none)
      else none

  abbrev pub better : ℕ → ℕ → NsgRule → Option NsgRule → Option NsgRule
  better s d r none = if is_some (says s d r) then some r else none
  better s d r (some t) =
      if is_some (says s d r) && leb r.priority t.priority then some r else some t

  -- Among the rules that apply the one with the least priority, and the first of equals.
  unfoldable pub best : ℕ → ℕ → List NsgRule → Option NsgRule
  best s d [] = none
  best s d (r ∷ rules) = better s d r (best s d rules)

  abbrev pub said : ℕ → ℕ → Option NsgRule → Option Bool
  said s d none = none
  said s d (some r) = says s d r
