-- ===== src/Scheduler/Process/Ids.antt =====
-- src/scheduler/process.rs: what the tracker reads off a container's id, `<pod>-<container>`.
use z8s.Base.{
  ◌≡◌, refl, sym, ap, ◌∙◌, inl, inr, Bool, true, false, ◌||◌, some, List, [], ◌∷◌, ◌++◌, arith,
  Bool-cases,
}
use mathlib.Core.List.{append_assoc}
use z8s.Base.Text.{Text, text_eq, text_eq_iff, starts_with, starts_with-append}
use z8s.Base.Text.Split.{Lacks, rsplit_once-append}
use z8s.Base.Dict
use z8s.Base.Dict.{Dict}
use z8s.Resource.{Pod, pod, name}
use z8s.Resource.Store.{ResourceTracker}
use z8s.Scheduler.Process.{RunningContainer, prefix_of, is_running, pod_of_id}
use z8s.Scheduler.Process.Exits.{owner, owns}

-- The id of a container.
abbrev pub id_of : Text → Text → Text
id_of pod_name container_name = pod_name ++ (b'-' ∷ container_name)

begins : (q rest : Text) → starts_with (id_of q rest) (prefix_of q) ≡ true
begins q rest =
    ap (λ s. starts_with s (prefix_of q)) (sym (append_assoc q (b'-' ∷ []) rest))
    ∙ starts_with-append (prefix_of q) rest

present :
    (q rest : Text) (rc : RunningContainer) (running : Dict RunningContainer)
    → Dict.get (id_of q rest) running ≡ some rc
    → is_running q running ≡ true
unfolding Dict.get is_running
present q rest rc [] e = absurd (ground arith)
present q rest rc ((cid, u) ∷ running) e = elim (Bool-cases (text_eq cid (id_of q rest))) [
  | inl same ↦
      let here : starts_with cid (prefix_of q) ≡ true =
        ap (λ s. starts_with s (prefix_of q)) ((text_eq_iff cid (id_of q rest)).0 same)
        ∙ begins q rest in
      rw here refl
  | inr other ↦
      or_right (starts_with cid (prefix_of q))
        (present q rest rc running (ground (arith, other, e)))
]
  where
    or_right : (a : Bool) {b : Bool} → b ≡ true → a || b ≡ true
    or_right true h = refl
    or_right false h = h

-- While a container `c` of the pod `q-r` runs, the pod `q` is taken to run as well, whether or not
-- it has a container.
pub is_running_other_pod :
    (q r c : Text) (rc : RunningContainer) (running : Dict RunningContainer)
    → Dict.get (id_of (id_of q r) c) running ≡ some rc
    → (is_running (id_of q r) running ≡ true) × (is_running q running ≡ true)
is_running_other_pod q r c rc running e = (
  present (id_of q r) c rc running e,
  present q (id_of r c) rc running
      (ap (λ k. Dict.get k running) (sym (append_assoc q (b'-' ∷ r) (b'-' ∷ c))) ∙ e),
)

-- When a container of the pod `q-r` exits, it is the restart policy of the pod `q` that counts, and
-- the pod `q` whose state changes, if the store lists `q` first.
pub owner_other_pod :
    (q r c : Text) (p : Pod) (t : ResourceTracker) (ts : List ResourceTracker)
    → t.resource ≡ pod p
    → name (pod p) ≡ q
    → owner (id_of (id_of q r) c) (t ∷ ts) ≡ some t
unfolding owner
owner_other_pod q r c p t ts et en =
    let named : starts_with (id_of (id_of q r) c) (prefix_of (name (pod p))) ≡ true =
      ap (λ n. starts_with (id_of (id_of q r) c) (prefix_of n)) en
      ∙ ap (λ s. starts_with s (prefix_of q)) (append_assoc q (b'-' ∷ r) (b'-' ∷ c))
      ∙ begins q (id_of r c) in
    rw (ap (owns (id_of (id_of q r) c)) et ∙ named) refl

-- A pod's address is listed under the pod's name if the container's name has no dash. Otherwise
-- it is listed under a name that has all of the container's name but its last part.
pub pod_of_id_lem :
    (p c a b : Text)
    → Lacks b'-' c
    → Lacks b'-' b
    → (pod_of_id (id_of p c) ≡ p) × (pod_of_id (id_of p (id_of a b)) ≡ id_of p a)
pod_of_id_lem p c a b hc hb = (
  rw (pod_of_id, rsplit_once-append b'-' p c hc) refl,
  ap pod_of_id (sym (append_assoc p (b'-' ∷ a) (b'-' ∷ b)))
      ∙ rw (pod_of_id, rsplit_once-append b'-' (id_of p a) b hb) refl,
)
