-- ===== src/Proxy/Tls/Drain.antt =====
-- One round of the loop at a whole record, and the loop over a list of records.
use native.Mathlib.Nat.{add-zero, zero-add}
use zk_prompt.Base.{
  lt→leb, lt→ltb, ℕ, zero, suc, ◌+◌, ◌-◌, ◌*◌, ◌/◌, ◌%◌, ◌≤◌, ◌<◌, ◌≡◌, refl, Bool, true, false,
  some, List, [], ◌∷◌, ◌++◌, Bytes, sym, ap, ap₂, ◌∙◌, length, drop, get_elem?, leb, ltb, ◌==◌,
  if◌then◌else◌, arith, length-append, length-drop, take-append, drop-append, drop-drop, append-nil,
  append_assoc, le→leb, Bool-cases, inl, inr,
}
use zk_prompt.Base.Partial.{slice, slice-eq-some, slice-zero, get_elem?-drop}
use zk_prompt.Proxy.Tls.Record.{
  TlsRecord, Fits, AllFit, encode_record, encode_records, record_data, records_data, is_53,
  IsIncomplete, records_le,
}
use zk_prompt.Proxy.Tls.{
  u16_from_be_bytes, strip_tag, absorb, drain_record, drain_loop, drain_application_data,
}

strip_tag_lem :
    (out : Bytes) (r : TlsRecord)
    → (r.content_type == 0x17) ≡ true
    → strip_tag out r.payload ≡ some (out ++ record_data r)
unfolding strip_tag record_data
strip_tag_lem out r h = elim (Bool-cases (leb 16 (length r.payload))) [
  | inl long ↦ rw (h, long) (rw (slice-zero (length r.payload - 16) r.payload (omega arith)))
  | inr short ↦ rw (h, short, append-nil)
]

if_nil : (b : Bool) → (if b then [] else []) ≡ (let e : Bytes = [] in e)
if_nil true = refl
if_nil false = refl

module _ (pending : Bytes) (offset : ℕ) (r : TlsRecord) (rest : Bytes) (fits : Fits r)
    (at : drop offset pending ≡ encode_record r ++ rest) where
  room : offset + 5 + length r.payload ≤ length pending
  room = omega (arith, length-drop offset pending, ap length at, length-append r.payload rest)

  record_end_lem :
      offset + 5 + u16_from_be_bytes (length r.payload / 256) (length r.payload % 256)
      ≡ offset + 5 + length r.payload
  unfolding u16_from_be_bytes
  record_end_lem = omega arith

  after_header : drop (offset + 5) pending ≡ r.payload ++ rest
  after_header = sym (drop-drop offset 5 pending) ∙ ap (drop 5) at

  after : drop (offset + 5 + length r.payload) pending ≡ rest
  after =
      sym (drop-drop (offset + 5) (length r.payload) pending)
      ∙ ap (drop (length r.payload)) after_header
      ∙ drop-append r.payload rest

  payload_slice : slice (offset + 5) (offset + 5 + length r.payload) pending ≡ some r.payload
  payload_slice =
      let e : offset + 5 + length r.payload - (offset + 5) ≡ length r.payload = omega arith in
      slice-eq-some (offset + 5) (offset + 5 + length r.payload) pending (omega arith) room
      ∙ rw (e, after_header, take-append r.payload rest)

  header_byte : (k : ℕ) → get_elem? pending (offset + k) ≡ get_elem? (encode_record r ++ rest) k
  header_byte k = get_elem?-drop offset k pending ∙ ap (λ (l : Bytes). get_elem? l k) at

  type_byte : get_elem? pending offset ≡ some r.content_type
  type_byte =
      let e : offset ≡ offset + 0 = omega arith in
      ap (λ (k : ℕ). get_elem? pending k) e ∙ header_byte 0

  hi_byte : get_elem? pending (offset + 3) ≡ some (length r.payload / 256)
  hi_byte = header_byte 3

  lo_byte : get_elem? pending (offset + 4) ≡ some (length r.payload % 256)
  lo_byte = header_byte 4

  not_past : ltb (length pending) (offset + 5 + length r.payload) ≡ false
  not_past = ground (arith, room)

  absorb_lem :
      (first_lo : ℕ) (out : Bytes)
      → get_elem? pending 4 ≡ some first_lo
      → absorb pending offset r.content_type (offset + 5 + length r.payload) out
        ≡ some (out ++ (if first_lo == 53 then [] else record_data r))
  unfolding absorb
  absorb_lem first_lo out e = elim (Bool-cases (r.content_type == 0x17)) [
    | inl app ↦ elim (Bool-cases (first_lo == 53)) [
      | inl skip ↦ rw (e, app, skip, append-nil)
      | inr keep ↦ rw (e, app, keep, payload_slice) (strip_tag_lem out r app)
    ]
    | inr other ↦ rw (e, other) (unfold record_data in rw (other, if_nil, append-nil))
  ]

  -- One round at a whole record.
  pub drain_loop-record :
      (fuel first_lo : ℕ) (out : Bytes)
      → get_elem? pending 4 ≡ some first_lo
      → drain_loop (suc fuel) pending offset out
        ≡ drain_loop fuel pending
            (offset + 5 + length r.payload)
            (out ++ (if first_lo == 53 then [] else record_data r))
  unfolding drain_loop drain_record
  drain_loop-record fuel first_lo out e =
      rw
        (
          le→leb (offset + 5) (length pending) (omega (arith, room)),
          type_byte,
          hi_byte,
          lo_byte,
          drain_loop,
          record_end_lem,
        )
        (rw (not_past, drain_record) (rw (absorb_lem first_lo out e)))

gather :
    (b : Bool) (out xs ys : Bytes)
    → (out ++ (if b then [] else xs)) ++ (if b then [] else ys)
      ≡ out ++ (if b then [] else xs ++ ys)
gather true out xs ys = append-nil (out ++ [])
gather false out xs ys = append_assoc out xs ys

stop_short :
    (pending : Bytes) (offset fuel : ℕ) (out : Bytes)
    → length pending < offset + 5
    → drain_loop (suc fuel) pending offset out ≡ some (offset, out)
unfolding drain_loop
stop_short pending offset fuel out h = rw (lt→leb (offset + 5) (length pending) h, drain_loop)

-- The loop stops in front of a record that has not wholly arrived.
drain_loop-stop :
    (pending : Bytes) (offset fuel : ℕ) (tail out : Bytes)
    → drop offset pending ≡ tail
    → offset ≤ length pending
    → IsIncomplete tail
    → drain_loop (suc fuel) pending offset out ≡ some (offset, out)
unfolding drain_loop drain_record u16_from_be_bytes
drain_loop-stop pending offset fuel (t ∷ v ∷ w ∷ hi ∷ lo ∷ rest) out at in_range short =
    let measured : length pending - offset ≡ length rest + 5 =
      omega (arith, length-drop offset pending, ap length at) in
    let byte = λ (k : ℕ). get_elem?-drop offset k pending ∙ ap (λ (l : Bytes). get_elem? l k) at in
    let first : get_elem? pending offset ≡ some t =
      let e : offset ≡ offset + 0 = omega arith in ap (λ (k : ℕ). get_elem? pending k) e ∙ byte 0 in
    let third : get_elem? pending (offset + 3) ≡ some hi = byte 3 in
    let fourth : get_elem? pending (offset + 4) ≡ some lo = byte 4 in
    let past : ltb (length pending) (offset + 5 + (hi * 256 + lo)) ≡ true = ground arith in
    rw (le→leb (offset + 5) (length pending) (omega arith), first, third, fourth, drain_loop)
      (rw (past, drain_record))
drain_loop-stop pending offset fuel [] out at in_range short =
    stop_short pending offset fuel out (omega (arith, length-drop offset pending, ap length at))
drain_loop-stop pending offset fuel (_ ∷ []) out at in_range short =
    stop_short pending offset fuel out (omega (arith, length-drop offset pending, ap length at))
drain_loop-stop pending offset fuel (_ ∷ _ ∷ []) out at in_range short =
    stop_short pending offset fuel out (omega (arith, length-drop offset pending, ap length at))
drain_loop-stop pending offset fuel (_ ∷ _ ∷ _ ∷ []) out at in_range short =
    stop_short pending offset fuel out (omega (arith, length-drop offset pending, ap length at))
drain_loop-stop pending offset fuel (_ ∷ _ ∷ _ ∷ _ ∷ []) out at in_range short =
    stop_short pending offset fuel out (omega (arith, length-drop offset pending, ap length at))

drain_loop-records :
    (rs : List TlsRecord) (pending : Bytes) (offset fuel first_lo : ℕ) (tail out : Bytes)
    → AllFit rs
    → IsIncomplete tail
    → drop offset pending ≡ encode_records rs ++ tail
    → offset ≤ length pending
    → get_elem? pending 4 ≡ some first_lo
    → length rs < fuel
    → drain_loop fuel pending offset out
      ≡ some (
        offset + length (encode_records rs),
        out ++ (if first_lo == 53 then [] else records_data rs),
      )
drain_loop-records rs pending offset zero first_lo tail out fits short at in_range e enough =
    absurd (omega arith)
drain_loop-records [] pending offset (suc fuel) first_lo tail out fits short at in_range e enough =
    drain_loop-stop pending offset fuel tail out at in_range short
    ∙ rw (if_nil (first_lo == 53), append-nil, add-zero)
drain_loop-records (r ∷ rs) pending offset (suc fuel) first_lo tail out fits short at in_range e
      enough =
    let at' : drop offset pending ≡ encode_record r ++ (encode_records rs ++ tail) =
      at ∙ append_assoc (encode_record r) (encode_records rs) tail in
    let n : ℕ = offset + 5 + length r.payload in
    drain_loop-record pending offset r _ fits.0 at' fuel first_lo out e
    ∙ drain_loop-records rs pending n fuel first_lo tail _ fits.1 short
        (after pending offset r _ fits.0 at') (room pending offset r _ fits.0 at') e (omega arith)
    ∙ ap₂ (λ (k : ℕ) (l : Bytes). some (k, l))
        (omega (arith, length-append r.payload (encode_records rs)))
        (gather (first_lo == 53) out (record_data r) (records_data rs))

pub drain_application_data-stop :
    (tail : Bytes) → IsIncomplete tail → drain_application_data tail ≡ some ([], tail)
unfolding drain_application_data
drain_application_data-stop tail short =
    rw (drain_loop-stop tail 0 (length tail) tail [] refl (omega arith) short)

cut_at :
    (n : ℕ) (pending tail : Bytes)
    → 0 < n
    → drop n pending ≡ tail
    → (if ltb 0 n then drop n pending else pending) ≡ tail
cut_at n pending tail h e = rw (lt→ltb 0 n h) e

-- What one call returns for the records that have wholly arrived: nothing if the first one's
-- length ends in the byte 53, for `pending[4]` is read at every round.
abbrev pub flight_data : List TlsRecord → Bytes
flight_data [] = []
flight_data (r ∷ rs) = if is_53 r then [] else records_data (r ∷ rs)

-- `drain_application_data` of any records whose lengths fit in two bytes, followed by an incomplete
-- one, never panics, keeps exactly the incomplete bytes in `pending`, and returns the tagless
-- ciphertext of the application data records in order, or nothing if the first record's length ends
-- in the byte 53.
pub drain_application_data-records :
    (rs : List TlsRecord) (tail : Bytes)
    → AllFit rs
    → IsIncomplete tail
    → drain_application_data (encode_records rs ++ tail) ≡ some (flight_data rs, tail)
unfolding drain_application_data
drain_application_data-records [] tail fits short = drain_application_data-stop tail short
drain_application_data-records (r ∷ rs) tail fits short =
    let pending = encode_records (r ∷ rs) ++ tail in
    let ended =
      drain_loop-records (r ∷ rs) pending 0 (suc (length pending)) (length r.payload % 256) tail []
        fits short refl (omega arith) refl
        (omega (arith, records_le (r ∷ rs), length-append (encode_records (r ∷ rs)) tail)) in
    let cut : (if ltb 0 (0 + length (encode_records (r ∷ rs)))
          then drop (0 + length (encode_records (r ∷ rs))) pending
          else pending)
        ≡ tail =
      cut_at (0 + length (encode_records (r ∷ rs))) pending tail (omega arith)
        (rw zero-add (drop-append (encode_records (r ∷ rs)) tail)) in
    rw ended (ap (λ (l : Bytes). some (flight_data (r ∷ rs), l)) cut)
