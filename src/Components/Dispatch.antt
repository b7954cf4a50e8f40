-- ===== src/Components/Dispatch.antt =====
-- src/components/mod.rs: which component acts, and what is kept by all of them.
use z8s.Base.{
  ℕ, ◌≡◌, refl, inl, inr, Option, none, some, List, [], ◌∷◌, if◌then◌else◌, Bool-cases, All,
}
use z8s.Base.Text.{Text, text_eq}
use z8s.Base.Int.{ℤ}
use z8s.Base.Dict.{get, put, get-put}
use z8s.Resource.{AnyResource, kind, uid}
use z8s.Resource.Store.{ResourceStore, ResourceTracker, get_all}
use z8s.Components.{
  Component, ComponentRegistry, PipelineStage, register, is_interested, dispatch_created,
  dispatch_deleted, apply_by, delete_by, reconcile_by, on_apply, on_delete, reconcile_each,
  reconcile_all, tick,
}

module _ (S : Type 0) where
  unfoldable pub register_all : List (Component S) → ComponentRegistry S → ComponentRegistry S
  register_all [] registry = registry
  register_all (c ∷ cs) registry = register_all cs (register S c registry)

  abbrev pub last_of : Text → List (Component S) → Option (Component S) → Option (Component S)
  last_of k [] o = o
  last_of k (c ∷ cs) o = last_of k cs (if text_eq c.kind k then some c else o)

  -- After any components are registered, in an empty registry, the one that is found for a kind is
  -- the last of that kind, and none is found exactly if none of them has it.
  pub get-register_all :
      (k : Text) (cs : List (Component S)) (registry : ComponentRegistry S)
      → get k (register_all cs registry) ≡ last_of k cs (get k registry)
  unfolding register_all register
  get-register_all k [] registry = refl
  get-register_all k (c ∷ cs) registry =
      rw (get-register_all k cs (put c.kind c registry), get-put c.kind k c registry)

  -- What every component and every stage keeps.
  pub record Keeps (P : S → Type 0) (c : Component S) : Type 0 where
    pub by_reconcile : (t : ResourceTracker) (s : S) → P s → P (c.reconcile t s).0
    pub by_apply : (r : AnyResource) (s : S) → P s → P (c.on_apply r s).0
    pub by_delete : (r : AnyResource) (s : S) → P s → P (c.on_delete r s).0

  pub record KeepsStage (P : S → Type 0) (stage : PipelineStage S) : Type 0 where
    pub by_created : (r : AnyResource) (s : S) → P s → P (stage.on_created r s).0
    pub by_deleted : (k u : Text) (s : S) → P s → P (stage.on_deleted k u s).0

  module _ (P : S → Type 0) where
    abbrev pub KeptBy : ComponentRegistry S → Type 0
    KeptBy registry = All (λ (entry : Text × Component S). Keeps P entry.1) registry

    abbrev AllKeep : Option (Component S) → Type 0
    AllKeep none = Unit {0}
    AllKeep (some c) = Keeps P c

    get-Keeps :
        (k : Text) (registry : ComponentRegistry S) → KeptBy registry → AllKeep (get k registry)
    unfolding get
    get-Keeps k [] h = tt
    get-Keeps k ((j, c) ∷ registry) (hc, h) = elim (Bool-cases (text_eq j k)) [
      | inl same ↦ rw same hc
      | inr other ↦ rw other (get-Keeps k registry h)
    ]

    reconcile_by-Keeps :
        (o : Option (Component S)) (t : ResourceTracker) (s : S)
        → AllKeep o
        → P s
        → P (reconcile_by S o t s)
    reconcile_by-Keeps none t s h p = p
    reconcile_by-Keeps (some c) t s h p = h.by_reconcile t s p

    apply_by-Keeps :
        (o : Option (Component S)) (r : AnyResource) (s : S)
        → AllKeep o
        → P s
        → P (apply_by S o r s)
    apply_by-Keeps none r s h p = p
    apply_by-Keeps (some c) r s h p = h.by_apply r s p

    delete_by-Keeps :
        (o : Option (Component S)) (r : AnyResource) (s : S)
        → AllKeep o
        → P s
        → P (delete_by S o r s)
    delete_by-Keeps none r s h p = p
    delete_by-Keeps (some c) r s h p = h.by_delete r s p

    created-Keeps :
        (stages : List (PipelineStage S)) (r : AnyResource) (s : S)
        → All (KeepsStage P) stages
        → P s
        → P (dispatch_created S stages r s)
    unfolding dispatch_created
    created-Keeps [] r s h p = p
    created-Keeps (stage ∷ stages) r s (hs, h) p =
        elim (Bool-cases (is_interested S (kind r) stage)) [
          | inl yes_it_is ↦
              rw yes_it_is (created-Keeps stages r (stage.on_created r s).0 h (hs.by_created r s p))
          | inr not_it ↦ rw not_it (created-Keeps stages r s h p)
        ]

    deleted-Keeps :
        (stages : List (PipelineStage S)) (k u : Text) (s : S)
        → All (KeepsStage P) stages
        → P s
        → P (dispatch_deleted S stages k u s)
    unfolding dispatch_deleted
    deleted-Keeps [] k u s h p = p
    deleted-Keeps (stage ∷ stages) k u s (hs, h) p = elim (Bool-cases (is_interested S k stage)) [
      | inl yes_it_is ↦
          rw yes_it_is
            (deleted-Keeps stages k u (stage.on_deleted k u s).0 h (hs.by_deleted k u s p))
      | inr not_it ↦ rw not_it (deleted-Keeps stages k u s h p)
    ]

    module _ (registry : ComponentRegistry S) (kept : KeptBy registry) where
      reconcile_each-Keeps :
          (ts : List ResourceTracker) (s : S) → P s → P (reconcile_each S registry ts s)
      unfolding reconcile_each
      reconcile_each-Keeps [] s p = p
      reconcile_each-Keeps (t ∷ ts) s p =
          reconcile_each-Keeps ts (reconcile_by S (get (kind t.resource) registry) t s) (
            reconcile_by-Keeps (get (kind t.resource) registry) t s
              (get-Keeps (kind t.resource) registry kept) p)

      module _ (stages : List (PipelineStage S)) (kept_by : All (KeepsStage P) stages)
          (store_of : S → ResourceStore) (handle_exited : List (ℕ × ℤ) → S → S)
          (kept_on_exit : (reaped : List (ℕ × ℤ)) (s : S) → P s → P (handle_exited reaped s)) where
        -- What the program does: apply a resource, delete one, or run a round of the reconciler.
        pub data Act : Type 0 where
          applied deleted : AnyResource → Act
          round : List (ℕ × ℤ) → Act

        abbrev pub act : Act → S → S
        act (applied r) s = on_apply S registry stages r s
        act (deleted r) s = on_delete S registry stages r s
        act (round reaped) s = tick S registry store_of handle_exited reaped s

        abbrev pub act_all : List Act → S → S
        act_all [] s = s
        act_all (a ∷ acts) s = act_all acts (act a s)

        act-Keeps : (a : Act) (s : S) → P s → P (act a s)
        unfolding on_apply on_delete tick reconcile_all
        act-Keeps (applied r) s p =
            created-Keeps stages r (apply_by S (get (kind r) registry) r s) kept_by
              (apply_by-Keeps (get (kind r) registry) r s (get-Keeps (kind r) registry kept) p)
        act-Keeps (deleted r) s p =
            deleted-Keeps stages (kind r) (uid r) (delete_by S (get (kind r) registry) r s) kept_by
              (delete_by-Keeps (get (kind r) registry) r s (get-Keeps (kind r) registry kept) p)
        act-Keeps (round []) s p = reconcile_each-Keeps (get_all (store_of s)) s p
        act-Keeps (round (e ∷ more)) s p =
            reconcile_each-Keeps (get_all (store_of (handle_exited (e ∷ more) s)))
              (handle_exited (e ∷ more) s) (kept_on_exit (e ∷ more) s p)

        -- What every registered component, every stage of the pipeline and the handling of exited
        -- processes keeps, is kept by the whole program: by any sequence of applied and deleted
        -- resources and rounds of the reconciler, whether or not the operations fail.
        pub acts_keep : (acts : List Act) (s : S) → P s → P (act_all acts s)
        acts_keep [] s p = p
        acts_keep (a ∷ acts) s p = acts_keep acts (act a s) (act-Keeps a s p)
