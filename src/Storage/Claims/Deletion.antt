-- ===== src/Storage/Claims/Deletion.antt =====
-- src/components/storage/pvc.rs: what is deleted with a claim.
use z8s.Base.{
  ◌≡◌, refl, sym, ap, ◌∙◌, ◌↔◌, inl, inr, Bool, true, false, ◌&&◌, Option, none, some, List, [],
  ◌∷◌, ◌++◌, arith, if◌then◌else◌, Bool-cases, unwrap_or, drop,
}
use z8s.Base.Text.{Text, codes, text_eq, text_eq_iff}
use z8s.Base.Dict
use z8s.Resource.{
  AnyResource, PersistentVolumeClaim, ClaimSpec, uid, kind, name, namespace, pod, deployment,
  service, config_map, secret, persistent_volume, persistent_volume_claim, vnet, subnet, nsg,
  route_table, ingress, network_policy,
}
use z8s.Resource.Keys.{cut_unique, kind-Lacks}
use z8s.Resource.Store.{ResourceStore, ResourceTracker, running, delete, get, get_by_kind, of_kind}
use z8s.Resource.Store.Laws.{IsKeyed, store_changes}

abbrev volume_in : Option ClaimSpec → Option Text
volume_in none = none
volume_in (some spec) = spec.volume_name

abbrev claimed : AnyResource → Option Text
claimed (persistent_volume_claim c) = volume_in c.spec
claimed _ = none

-- `vol_name`: of the claim in the store if it is there, otherwise of the claim that is given.
abbrev pub current_volume : PersistentVolumeClaim → Option ResourceTracker → Option Text
current_volume pvc none = volume_in pvc.spec
current_volume pvc (some t) = claimed t.resource

unfoldable pub find_named : Text → List ResourceTracker → Option ResourceTracker
find_named vol [] = none
find_named vol (t ∷ ts) =
    let rest = find_named vol ts in if text_eq (name t.resource) vol then some t else rest

abbrev pub delete_found : Option ResourceTracker → ResourceStore → ResourceStore
delete_found none store = store
delete_found (some t) store = delete t.resource store

abbrev pub delete_volume : Option Text → ResourceStore → ResourceStore
delete_volume none store = store
delete_volume (some vol) store =
    delete_found (find_named vol (get_by_kind (codes "PersistentVolume") store)) store

-- `on_delete`: what it does to the store. A failure to deprovision the volume is ignored.
unfoldable pub on_delete : PersistentVolumeClaim → ResourceStore → ResourceStore
unfolding find_named
on_delete pvc store =
    delete_volume (current_volume pvc (get (uid (persistent_volume_claim pvc)) store)) store

-- The key of a volume.
abbrev pub volume_key : Text → Text
volume_key vol = codes "PersistentVolume" ++ (b'/' ∷ (b'/' ∷ vol))

volume-namespace : (r : AnyResource) → kind r ≡ codes "PersistentVolume" → namespace r ≡ []
unfolding kind namespace
volume-namespace (pod c) e = absurd (ground arith)
volume-namespace (deployment c) e = absurd (ground arith)
volume-namespace (service c) e = absurd (ground arith)
volume-namespace (config_map c) e = absurd (ground arith)
volume-namespace (secret c) e = absurd (ground arith)
volume-namespace (persistent_volume v) e = refl
volume-namespace (persistent_volume_claim c) e = absurd (ground arith)
volume-namespace (vnet c) e = absurd (ground arith)
volume-namespace (subnet c) e = absurd (ground arith)
volume-namespace (nsg c) e = absurd (ground arith)
volume-namespace (route_table c) e = absurd (ground arith)
volume-namespace (ingress c) e = absurd (ground arith)
volume-namespace (network_policy c) e = absurd (ground arith)

volume-uid :
    (r : AnyResource) (vol : Text)
    → kind r ≡ codes "PersistentVolume"
    → name r ≡ vol
    → uid r ≡ volume_key vol
unfolding uid
volume-uid r vol k n = rw (k, volume-namespace r k, n) refl

uid-volume :
    (r : AnyResource) (vol : Text)
    → uid r ≡ volume_key vol
    → (kind r ≡ codes "PersistentVolume") × (name r ≡ vol)
unfolding uid
uid-volume r vol e =
    let (k, rest) =
      cut_unique b'/' (kind r) (codes "PersistentVolume") (namespace r ++ (b'/' ∷ name r))
        (b'/' ∷ vol) (kind-Lacks r) (omega arith) e in
    (k, ap (drop 1) (ap (λ n. n ++ (b'/' ∷ name r)) (sym (volume-namespace r k)) ∙ rest))

abbrev volumes : ResourceStore → List ResourceTracker
volumes s = of_kind (codes "PersistentVolume") (Dict.values s)

-- The resource is a volume of this name.
abbrev is_wanted : Text → AnyResource → Bool
is_wanted vol r = text_eq (kind r) (codes "PersistentVolume") && text_eq (name r) vol

find_step :
    (vol j : Text) (u : ResourceTracker) (s : ResourceStore)
    → find_named vol (volumes ((j, u) ∷ s))
      ≡ (if is_wanted vol u.resource then some u else find_named vol (volumes s))
unfolding find_named of_kind Dict.values
find_step vol j u s = elim (Bool-cases (text_eq (kind u.resource) (codes "PersistentVolume"))) [
  | inl e ↦ rw e refl
  | inr e ↦ rw e refl
]

step_found :
    (vol j : Text) (u : ResourceTracker) (s : ResourceStore) {b : Bool} {o : Option ResourceTracker}
    → is_wanted vol u.resource ≡ b
    → find_named vol (volumes ((j, u) ∷ s)) ≡ o
    → (if b then some u else find_named vol (volumes s)) ≡ o
step_found vol j u s w e =
    ap (λ b. if b then some u else find_named vol (volumes s)) (sym w)
    ∙ sym (find_step vol j u s)
    ∙ e

wanted-uid : (vol : Text) (r : AnyResource) → (is_wanted vol r ≡ true) ↔ (uid r ≡ volume_key vol)
wanted-uid vol r = (
  λ e.
      volume-uid r vol ((text_eq_iff (kind r) (codes "PersistentVolume")).0 (ground (arith, e)))
        ((text_eq_iff (name r) vol).0 (ground (arith, e))),
  λ e.
      let (k, n) = uid-volume r vol e in
      rw ((text_eq_iff (kind r) (codes "PersistentVolume")).1 k) ((text_eq_iff (name r) vol).1 n),
)

found-uid :
    (vol : Text) (s : ResourceStore) (t : ResourceTracker)
    → find_named vol (volumes s) ≡ some t
    → uid t.resource ≡ volume_key vol
unfolding find_named of_kind Dict.values
found-uid vol [] t e = absurd (ground arith)
found-uid vol ((j, u) ∷ s) t e = elim (Bool-cases (is_wanted vol u.resource)) [
  | inl w ↦
      let same : some u ≡ some t = step_found vol j u s w e in
      ap (λ o. uid ((unwrap_or o t).resource)) (sym same) ∙ (wanted-uid vol u.resource).0 w
  | inr w ↦ found-uid vol s t (step_found vol j u s w e)
]

missing-uid :
    (vol : Text) (s : ResourceStore)
    → IsKeyed s
    → find_named vol (volumes s) ≡ none
    → get (volume_key vol) s ≡ none
unfolding get Dict.get
missing-uid vol [] v e = refl
missing-uid vol ((j, u) ∷ s) (key, fresh, v) e = elim (Bool-cases (is_wanted vol u.resource)) [
  | inl w ↦ let found : some u ≡ none = step_found vol j u s w e in absurd (ground arith)
  | inr w ↦ let rest = missing-uid vol s v (step_found vol j u s w e) in rw (other w) rest
]
  where
    other : is_wanted vol u.resource ≡ false → text_eq j (volume_key vol) ≡ false
    other w = elim (Bool-cases (text_eq j (volume_key vol))) [
      | inl e ↦
          let w' = (wanted-uid vol u.resource).1 (sym key ∙ (text_eq_iff j (volume_key vol)).0 e) in
          absurd (ground (arith, w, w'))
      | inr e ↦ e
    ]

-- Deleting a claim that is bound to a volume takes exactly the volume's key from the store, if the
-- volume is there: whatever the volume, who made it, and what claim it refers to. If the store has
-- the claim, the volume is the one that the claim in the store names.
pub on_delete_lem :
    (pvc : PersistentVolumeClaim) (store : ResourceStore) (vol j : Text)
    → IsKeyed store
    → current_volume pvc (get (uid (persistent_volume_claim pvc)) store) ≡ some vol
    → get j (on_delete pvc store) ≡ (if text_eq (volume_key vol) j then none else get j store)
unfolding on_delete get_by_kind
on_delete_lem pvc store vol j v bound =
    ap (λ o. get j (delete_volume o store)) bound
    ∙ go (find_named vol (volumes store)) (found-uid vol store) (missing-uid vol store v)
  where
    go :
        (o : Option ResourceTracker)
        → ((t : ResourceTracker) → o ≡ some t → uid t.resource ≡ volume_key vol)
        → (o ≡ none → get (volume_key vol) store ≡ none)
        → get j (delete_found o store) ≡ (if text_eq (volume_key vol) j then none else get j store)
    go none found missing = elim (Bool-cases (text_eq (volume_key vol) j)) [
      | inl e ↦
          rw e (ap (λ k. get k store) (sym ((text_eq_iff (volume_key vol) j).0 e)) ∙ missing refl)
      | inr e ↦ rw e refl
    ]
    go (some t) found missing =
        (store_changes 0 t.resource j j running store).1
        ∙ ap (λ k. if text_eq k j then none else get j store) (found t refl)
