-- ===== src/Net/Nft/Runs.antt =====
-- src/netmux/nftables.rs: runs of the engine.
use z8s.Base.{ℕ, ◌≡◌, refl, true, some, List, [], ◌∷◌, arith}
use z8s.Base.Text.{codes}
use z8s.Net.Nft.{
  Kernel, Batch, Answer, NftEngine, new, hex, chain_name, is_ok, add_dnat, del_chain, del_table,
  netlink_error, add_table, done, add_chain, add_base_chain, add_rule, add_set, add_elements,
}
use z8s.Net.Nft.Sent.{Accepts}
use z8s.Net.Nft.Jumps.Once.{sync, here, next, Once, Reach-Once}

abbrev busy : Batch → Answer
busy (del_chain t c ∷ b) = netlink_error 16
busy b = done

-- A kernel that finds a chain busy whenever it is to be deleted.
abbrev busy_kernel : Kernel
busy_kernel = record { answer = λ h b. busy b; parse_network = λ s. some (167772160, 16) }

busy-is_ok : (b : Batch) → is_ok (busy b) ≡ true
unfolding is_ok
busy-is_ok [] = refl
busy-is_ok (del_chain t c ∷ b) = refl
busy-is_ok (del_table t ∷ b) = refl
busy-is_ok (add_table t ∷ b) = refl
busy-is_ok (add_chain t c ∷ b) = refl
busy-is_ok (add_base_chain t c ty h p ∷ b) = refl
busy-is_ok (add_rule t c es ∷ b) = refl
busy-is_ok (add_set t n ∷ b) = refl
busy-is_ok (add_elements t n ips ∷ b) = refl

busy_kernel-Accepts : Accepts busy_kernel
busy_kernel-Accepts h b = busy-is_ok b

-- 10.96.0.10, and pods 10.244.0.2 and 10.244.0.3.
abbrev cluster_ip : ℕ
cluster_ip = 174063626

abbrev first_pod : ℕ
first_pod = 183762946

abbrev second_pod : ℕ
second_pod = 183762947

name_of_service : chain_name cluster_ip 80 ≡ codes "svc-0a60000a-0050"
unfolding chain_name hex
name_of_service = refl

abbrev one_backend : List (ℕ × ℕ)
one_backend = (first_pod, 8080) ∷ []

abbrev other_backend : List (ℕ × ℕ)
other_backend = (second_pod, 8080) ∷ []

abbrev once_synced : NftEngine
once_synced = (add_dnat busy_kernel cluster_ip 80 one_backend new).0

Reach-Once_example : Once (add_dnat busy_kernel cluster_ip 80 other_backend once_synced).0
Reach-Once_example = Reach-Once busy_kernel (
    next (next here (sync new cluster_ip 80 one_backend (omega arith) (omega arith)))
      (sync once_synced cluster_ip 80 other_backend (omega arith) (omega arith)))
