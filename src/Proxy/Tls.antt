-- ===== src/Proxy/Tls.antt =====
-- proxy/src/tls.rs: `drain_application_data`. The `while` loop takes fuel; `none` is a panic
-- (an index or a slice out of range) or the end of the fuel.
pub mod Record
pub mod Drain
pub mod Stream
use zk_prompt.Base.{
  ℕ, zero, suc, ◌+◌, ◌-◌, ◌*◌, Bool, true, false, not, ◌&&◌, Option, none, some, List, [], ◌++◌,
  Bytes, length, drop, get_elem?, ltb, leb, ◌==◌, if◌then◌else◌,
}
use zk_prompt.Base.Partial.{◌>>=◌, slice}

abbrev pub aead_tag_len : ℕ
aead_tag_len = 16

-- `u16::from_be_bytes([hi, lo])`
unfoldable pub u16_from_be_bytes : ℕ → ℕ → ℕ
u16_from_be_bytes hi lo = hi * 256 + lo

-- `out`, after the payload of one application data record
unfoldable pub strip_tag : Bytes → Bytes → Option Bytes
strip_tag out payload =
    if leb aead_tag_len (length payload)
    then (do body ← slice 0 (length payload - aead_tag_len) payload; some (out ++ body))
    else some out

-- `out` after the record at `offset`, whose first byte is `record_type`
unfoldable pub absorb : Bytes → ℕ → ℕ → ℕ → Bytes → Option Bytes
unfolding strip_tag
absorb pending offset record_type record_end out = do
  first_lo ← get_elem? pending 4
  (if record_type == 0x17 && not (first_lo == 53)
      then slice (offset + 5) record_end pending >>= strip_tag out
      else some out)

-- The loop's body once the record's end is known; `next` is the loop's next round.
unfoldable pub drain_record :
    (ℕ → Bytes → Option (ℕ × Bytes)) → Bytes → ℕ → ℕ → ℕ → Bytes → Option (ℕ × Bytes)
drain_record next pending offset record_type record_end out =
    elim (ltb (length pending) record_end) [
      | true ↦ some (offset, out)
      | false ↦ (do out' ← absorb pending offset record_type record_end out; next record_end out')
    ]

-- The loop; the result is `offset` and `out` where it stops.
unfoldable pub drain_loop : ℕ → Bytes → ℕ → Bytes → Option (ℕ × Bytes)
drain_loop zero pending offset out = none
drain_loop (suc fuel) pending offset out = elim (leb (offset + 5) (length pending)) [
  | false ↦ some (offset, out)
  | true ↦ do
    record_type ← get_elem? pending offset
    hi ← get_elem? pending (offset + 3)
    lo ← get_elem? pending (offset + 4)
    drain_record (drain_loop fuel pending) pending offset record_type
        (offset + 5 + u16_from_be_bytes hi lo) out
]

-- The result, and what stays in `pending`: `drain(..0)` would change nothing, so the test
-- `offset > 0` is one `drop`.
unfoldable pub drain_application_data : Bytes → Option (Bytes × Bytes)
unfolding drain_loop drain_record absorb u16_from_be_bytes
drain_application_data pending = do
  stop ← drain_loop (suc (length pending)) pending 0 []
  some (stop.1, if ltb 0 stop.0 then drop stop.0 pending else pending)
