-- ===== src/Base/Set/Ranges.antt =====
-- Runs of consecutive numbers put into a set and taken out of it.
use z8s.Base.Tests.{ltb, leb}
use z8s.Base.Set.{
  contains, insert, remove, Above, contains-insert, insert-Above, contains-remove, remove-Above,
}
use Prim.Native.Nat.{ℕ, zero, suc, ◌+◌, ◌≤◌}
use mathlib.Core.Path.{◌≡◌}
use mathlib.Core.Bool.{Bool, not, ◌&&◌, ◌||◌}
use mathlib.Core.List.{List}
use native.Mathlib.Omega.{arith}

-- `x` is one of the `n` numbers from `a` on.
abbrev pub in_range : ℕ → ℕ → ℕ → Bool
in_range n a x = leb a x && ltb x (a + n)

-- `for i in a..a + n { set.insert(i); }`
unfoldable pub insert_range : ℕ → ℕ → List ℕ → List ℕ
insert_range zero a s = s
insert_range (suc n) a s = insert_range n (suc a) (insert a s)

-- `for i in a..a + n { set.remove(&i); }`
unfoldable pub remove_range : ℕ → ℕ → List ℕ → List ℕ
remove_range zero a s = s
remove_range (suc n) a s = remove_range n (suc a) (remove a s)

pub contains-insert_range :
    (n a x : ℕ) (s : List ℕ) → contains (insert_range n a s) x ≡ (in_range n a x || contains s x)
unfolding insert_range
contains-insert_range zero a x s = ground arith
contains-insert_range (suc n) a x s =
    ground (arith, contains-insert_range n (suc a) x (insert a s), contains-insert a x s)

pub insert_range-Above : (n a b : ℕ) (s : List ℕ) → b ≤ a → Above b s → Above b (insert_range n a s)
unfolding insert_range
insert_range-Above zero a b s h p = p
insert_range-Above (suc n) a b s h p =
    insert_range-Above n (suc a) b (insert a s) (omega arith) (insert-Above b a s h p)

pub remove_range-Above : (n a b : ℕ) (s : List ℕ) → Above b s → Above b (remove_range n a s)
unfolding remove_range
remove_range-Above zero a b s p = p
remove_range-Above (suc n) a b s p =
    remove_range-Above n (suc a) b (remove a s) (remove-Above b a s p)

pub contains-remove_range :
    (n a b x : ℕ) (s : List ℕ)
    → Above b s
    → contains (remove_range n a s) x ≡ (not (in_range n a x) && contains s x)
unfolding remove_range
contains-remove_range zero a b x s p = ground arith
contains-remove_range (suc n) a b x s p = ground (
  arith,
  contains-remove_range n (suc a) b x (remove a s) (remove-Above b a s p),
  contains-remove b a x s p,
)
