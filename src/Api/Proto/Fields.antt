-- ===== src/Api/Proto/Fields.antt =====
-- src/api/proto.rs: the lookups of one field.
use z8s.Base.{ℕ, Option, none, some, ◌==◌, if◌then◌else◌}
use z8s.Base.Text.{Text}
use z8s.Base.Text.Utf8.{lossy}
use z8s.Base.Checked.{Checked, ok, ◌>>=◌}
use z8s.Api.Proto.{Bytes, Value, varint, bytes, Flow, go, stop, each_field}

-- `while let Some((f, Value::Bytes(b)))` leaves the loop at the first field that holds no bytes.
abbrev pub bytes_only {ℓ} :
    {S : Type ℓ} → (ℕ → Bytes → S → Checked (Flow S)) → ℕ → Value → S → Checked (Flow S)
bytes_only body f (bytes b) s = body f b s
bytes_only body f _ s = ok (stop s)

abbrev pub bytes_body : ℕ → ℕ → Bytes → Option Bytes → Checked (Flow (Option Bytes))
bytes_body target f b s = if f == target then ok (stop (some b)) else ok (go s)

-- `get_bytes_field`.
unfoldable pub get_bytes_field : Bytes → ℕ → Checked (Option Bytes)
unfolding each_field
get_bytes_field msg target = each_field (bytes_only (bytes_body target)) msg none

abbrev pub map_lossy : Option Bytes → Option Text
map_lossy none = none
map_lossy (some b) = some (lossy b)

-- `get_string_field`.
unfoldable pub get_string_field : Bytes → ℕ → Checked (Option Text)
unfolding get_bytes_field
get_string_field msg target = get_bytes_field msg target >>= λ b. ok (map_lossy b)

abbrev pub varint_body : ℕ → ℕ → Value → Option ℕ → Checked (Flow (Option ℕ))
varint_body target f (varint n) s = if f == target then ok (stop (some n)) else ok (go s)
varint_body target f _ s = ok (go s)

-- `get_varint_field`.
unfoldable pub get_varint_field : Bytes → ℕ → Checked (Option ℕ)
unfolding each_field
get_varint_field msg target = each_field (varint_body target) msg none
