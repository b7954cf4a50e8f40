-- ===== src/Compute/Spec/Volumes/Emptydirs.antt =====
-- src/cri/volumes.rs: whose directories are deleted with a pod, and which are shared.
use z8s.Base.{◌≡◌, refl, sym, ap, ◌∙◌, ◌≢◌, Bool, true, ◌&&◌, List, [], ◌∷◌, ◌++◌, arith, any, All}
use mathlib.Core.List.{append_assoc}
use z8s.Base.Text.{Text, codes, text_eq, text_eq_iff, starts_with, starts_with-append}
use z8s.Compute.Spec.Volumes.{Disk, slash, safe_uid, emptydir, cleanup_emptydir}

-- The name of the directory of a volume.
abbrev pub entry : Text → Text → Text
entry pod_uid vol = safe_uid pod_uid ++ (b'-' ∷ vol)

abbrev pub contains : List Text → Text → Bool
contains names name = any (λ n. text_eq n name) names

safe_uid-append : (s t : Text) → safe_uid (s ++ t) ≡ safe_uid s ++ safe_uid t
unfolding safe_uid
safe_uid-append [] t = refl
safe_uid-append (c ∷ s) t = ap (λ r. slash c ∷ r) (safe_uid-append s t)

safe_uid_plain : (s : Text) → All (λ c. c ≢ b'/') s → safe_uid s ≡ s
unfolding safe_uid
safe_uid_plain [] h = refl
safe_uid_plain (c ∷ s) (ne, h) = ground (arith, ne, safe_uid_plain s h)

contains-cleanup :
    (p name : Text) (names : List Text)
    → contains (cleanup_emptydir p names) name
      ≡ (contains names name && starts_with name (safe_uid p ++ codes "-"))
unfolding cleanup_emptydir
contains-cleanup p name [] = refl
contains-cleanup p name (n ∷ names) = ground (
  arith,
  contains-cleanup p name names,
  text_eq_iff n name,
  λ (q : n ≡ name). ap (λ x. starts_with x (safe_uid p ++ codes "-")) q,
)

own_prefix :
    (p rest : Text) → starts_with (safe_uid p ++ (b'-' ∷ rest)) (safe_uid p ++ codes "-") ≡ true
own_prefix p rest =
    ap (λ x. starts_with x (safe_uid p ++ codes "-"))
      (sym (append_assoc (safe_uid p) (codes "-") rest))
    ∙ starts_with-append (safe_uid p ++ codes "-") rest

longer_entry :
    (p rest vol : Text)
    → entry (p ++ (b'-' ∷ rest)) vol ≡ safe_uid p ++ (b'-' ∷ (safe_uid rest ++ (b'-' ∷ vol)))
unfolding safe_uid
longer_entry p rest vol =
    ap (λ x. x ++ (b'-' ∷ vol)) (safe_uid-append p (b'-' ∷ rest))
    ∙ append_assoc (safe_uid p) (b'-' ∷ safe_uid rest) (b'-' ∷ vol)

-- Deleting the directories of a pod deletes every one of its own. It also deletes those of every pod
-- whose identifier goes on with a dash, such as web-1 for the pod web, and none that does not begin
-- with the pod's identifier and a dash. And two such pods share a directory where the volume of the
-- one begins with what the identifier of the other has more, if that has no slash.
pub emptydir_lem :
    (disk : Disk) (p rest vol : Text) (names : List Text) (name : Text)
    → All (λ c. c ≢ b'/') rest
    → (contains (cleanup_emptydir p names) (entry p vol) ≡ contains names (entry p vol))
      × (contains (cleanup_emptydir p names) (entry (p ++ (b'-' ∷ rest)) vol)
          ≡ contains names (entry (p ++ (b'-' ∷ rest)) vol))
      × (contains (cleanup_emptydir p names) name
          ≡ (contains names name && starts_with name (safe_uid p ++ codes "-")))
      × (emptydir disk p (rest ++ (b'-' ∷ vol)) ≡ emptydir disk (p ++ (b'-' ∷ rest)) vol)
unfolding emptydir
emptydir_lem disk p rest vol names name plain = (
  begins (entry p vol) (own_prefix p vol),
  begins (entry (p ++ (b'-' ∷ rest)) vol) (
      ap (λ x. starts_with x (safe_uid p ++ codes "-")) (longer_entry p rest vol)
      ∙ own_prefix p (safe_uid rest ++ (b'-' ∷ vol))),
  contains-cleanup p name names,
  ap (λ x. disk.base ++ (codes "/emptydir/" ++ x))
      (ap (λ r. safe_uid p ++ (b'-' ∷ (r ++ (b'-' ∷ vol)))) (sym (safe_uid_plain rest plain))
        ∙ sym (longer_entry p rest vol)),
)
  where
    begins :
        (n : Text)
        → starts_with n (safe_uid p ++ codes "-") ≡ true
        → contains (cleanup_emptydir p names) n ≡ contains names n
    begins n s = contains-cleanup p n names ∙ rw s (ground arith)
