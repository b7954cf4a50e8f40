-- ===== src/Resource/Quantity.antt =====
-- src/types.rs: `parse_quantity_bytes`.
use z8s.Base.{ℕ, ◌-◌, ◌^◌, Option, none, some, List, [], ◌∷◌, unwrap_or}
use z8s.Base.Text.{Text, codes}
use z8s.Base.Text.Trim.{trim, strip_suffix}
use z8s.Base.Numbers.{parse_uint}
use z8s.Base.Checked.{Checked, ok, mul64}

-- The suffixes in the order in which they are tried, with what each one multiplies by.
abbrev pub units : List (Text × ℕ)
units =
    (codes "Ti", 1024 ^ 4)
    ∷ (codes "Gi", 1024 ^ 3)
    ∷ (codes "Mi", 1024 ^ 2)
    ∷ (codes "Ki", 1024)
    ∷ (codes "Pi", 1024 ^ 5)
    ∷ (codes "Ei", 1024 ^ 6)
    ∷ (codes "T", 1000000000000)
    ∷ (codes "G", 1000000000)
    ∷ (codes "M", 1000000)
    ∷ (codes "k", 1000)
    ∷ []

-- `rest.parse::<u64>().unwrap_or(0)`.
abbrev pub number_or_zero : Text → ℕ
number_or_zero rest = unwrap_or (parse_uint (2 ^ 64 - 1) rest) 0

unfoldable pub in_units : List (Text × ℕ) → Text → Checked ℕ
in_units [] s = ok (number_or_zero s)
in_units ((suffix, factor) ∷ more) s = in_unit (in_units more s) factor (strip_suffix suffix s)
  where
    in_unit : Checked ℕ → ℕ → Option Text → Checked ℕ
    in_unit other factor none = other
    in_unit other factor (some rest) = mul64 (number_or_zero rest) factor

-- `parse_quantity_bytes`, on the text of the quantity.
unfoldable pub parse_quantity_bytes : Text → Checked ℕ
unfolding in_units
parse_quantity_bytes q = in_units units (trim q)
