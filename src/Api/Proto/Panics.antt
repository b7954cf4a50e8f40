-- ===== src/Api/Proto/Panics.antt =====
-- Where src/api/proto.rs panics.
use z8s.Base.{ℕ, ◌+◌, ◌*◌, ◌^◌, ◌≤◌, ◌<◌, ◌≡◌, ◌++◌, arith, length}
use z8s.Base.Checked.{overflow}
use z8s.Api.Proto.{Bytes, next_field}
use z8s.Api.Proto.Encode.{put_varint, at, key_read, read_varint-put_varint}

-- A field of bytes whose stated length passes the range of usize from where the bytes would start
-- makes `next_field` panic, whatever follows.
pub next_field_panics :
    (f len pos : ℕ) (rest : Bytes)
    → f < 2 ^ 29
    → len < 2 ^ 64
    → 2 ^ 64 ≤ pos + length (put_varint 9 (f * 8 + 2)) + length (put_varint 9 len) + len
    → next_field (at pos (put_varint 9 (f * 8 + 2) ++ (put_varint 9 len ++ rest))) ≡ overflow
next_field_panics f len pos rest hf hl big =
    let key = put_varint 9 (f * 8 + 2) in
    rw
      (
        key_read (f * 8 + 2) pos (put_varint 9 len ++ rest) (omega arith),
        read_varint-put_varint len (pos + length key) rest hl,
      )
      (ground arith)
