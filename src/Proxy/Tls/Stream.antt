-- ===== src/Proxy/Tls/Stream.antt =====
-- Every byte string is, in one way, whole records followed by an incomplete one.
use mathlib.Core.Path.{subst}
use native.Mathlib.Decide.{dec_le}
use zk_prompt.Base.{
  ℕ, zero, suc, ◌+◌, ◌*◌, ◌/◌, ◌%◌, ◌≤◌, ◌<◌, ◌≡◌, refl, some, List, [], ◌∷◌, ◌++◌, Bytes, sym, ap,
  ap₂, ◌∙◌, length, take, drop, arith, length-append, append_split, length-drop, length-take,
  take-append-drop, append_assoc, AllBytes, AllBytes-drop,
}
use zk_prompt.Proxy.Tls.Record.{
  TlsRecord, Fits, AllFit, encode_record, encode_records, IsIncomplete,
}
use zk_prompt.Proxy.Tls.Drain.{flight_data, drain_application_data-records}
use zk_prompt.Proxy.Tls.{drain_application_data}

-- The records that have wholly arrived, and the bytes after them.
pub record Split (bytes : Bytes) : Type 0 where
  pub records : List TlsRecord
  pub tail : Bytes
  pub fits : AllFit records
  pub short : IsIncomplete tail
  pub joins : encode_records records ++ tail ≡ bytes

abbrev no_records : (bytes : Bytes) → IsIncomplete bytes → Split bytes
no_records bytes h = record { records = []; tail = bytes; fits = tt; short = h; joins = refl }

-- A record in front of a split.
cons-Split :
    (t v w hi lo : ℕ) (rest : Bytes)
    → hi < 256
    → lo < 256
    → hi * 256 + lo ≤ length rest
    → Split (drop (hi * 256 + lo) rest)
    → Split (t ∷ v ∷ w ∷ hi ∷ lo ∷ rest)
cons-Split t v w hi lo rest hi_byte lo_byte whole s =
    let n : ℕ = hi * 256 + lo in
    let r : TlsRecord = record {
      content_type = t;
      version_hi = v;
      version_lo = w;
      payload = take n rest;
    } in
    let measured : length (take n rest) ≡ n = omega (arith, length-take n rest) in
    let high : length (take n rest) / 256 ≡ hi = omega arith in
    let low : length (take n rest) % 256 ≡ lo = omega arith in
    let body : (take n rest ++ encode_records s.records) ++ s.tail ≡ rest =
      append_assoc (take n rest) (encode_records s.records) s.tail
      ∙ ap (◌++◌ (take n rest)) s.joins
      ∙ take-append-drop n rest in
    record {
      records = r ∷ s.records;
      tail = s.tail;
      fits = (omega arith, s.fits);
      short = s.short;
      joins = cc (high, low, body);
    }

pub split_fuel : (fuel : ℕ) (bytes : Bytes) → length bytes < fuel → AllBytes bytes → Split bytes
split_fuel zero bytes h b = absurd (omega arith)
split_fuel (suc fuel) (t ∷ v ∷ w ∷ hi ∷ lo ∷ rest) h b =
    elim (dec_le (hi * 256 + lo) (length rest)) [
      | yes whole ↦ cons-Split t v w hi lo rest b.1.1.1.0 b.1.1.1.1.0 whole (
          split_fuel fuel (drop (hi * 256 + lo) rest)
            (omega (arith, length-drop (hi * 256 + lo) rest))
            (AllBytes-drop (hi * 256 + lo) rest b.1.1.1.1.1))
      | no partial ↦ no_records (t ∷ v ∷ w ∷ hi ∷ lo ∷ rest) (omega arith)
    ]
split_fuel (suc fuel) bytes h b = no_records bytes tt

pub split : (bytes : Bytes) → AllBytes bytes → Split bytes
split bytes b = split_fuel (suc (length bytes)) bytes (omega arith) b

-- On any bytes below 256 `drain_application_data` terminates without a panic: it takes off the whole
-- records, leaves an incomplete one, and loses no byte of what it leaves.
pub drain_application_data_total :
    (pending : Bytes)
    → AllBytes pending
    → (s : Split pending) × (drain_application_data pending ≡ some (flight_data s.records, s.tail))
drain_application_data_total pending b =
    let s = split pending b in
    (
      s,
      ap drain_application_data (sym s.joins)
          ∙ drain_application_data-records s.records s.tail s.fits s.short,
    )

encode_record_injective :
    (r q : TlsRecord) (x y : Bytes)
    → Fits r
    → Fits q
    → encode_record r ++ x ≡ encode_record q ++ y
    → (r ≡ q) × (x ≡ y)
encode_record_injective r q x y fr fq e =
    let types : r.content_type ≡ q.content_type = cc in
    let his : r.version_hi ≡ q.version_hi = cc in
    let los : r.version_lo ≡ q.version_lo = cc in
    let high : length r.payload / 256 ≡ length q.payload / 256 = cc in
    let low : length r.payload % 256 ≡ length q.payload % 256 = cc in
    let bodies : r.payload ++ x ≡ q.payload ++ y = cc in
    let parts = append_split r.payload q.payload x y (omega arith) bodies in
    (
      λ i. record {
        content_type = types i;
        version_hi = his i;
        version_lo = los i;
        payload = parts.0 i;
      },
      parts.1,
    )

-- Whole records in front of a split are records of the split.
pub encode_records-prefix :
    (rs qs : List TlsRecord) (x tail : Bytes)
    → AllFit rs
    → AllFit qs
    → IsIncomplete tail
    → encode_records rs ++ x ≡ encode_records qs ++ tail
    → (ps : List TlsRecord) × (qs ≡ rs ++ ps) × (x ≡ encode_records ps ++ tail) × AllFit ps
encode_records-prefix [] qs x tail fr fq short e = (qs, refl, e, fq)
encode_records-prefix (r ∷ rs) [] x tail fr fq short e = absurd (
    omega (
      arith,
      subst IsIncomplete (sym e) short,
      length-append (r.payload ++ encode_records rs) x,
      length-append r.payload (encode_records rs),
    ))
encode_records-prefix (r ∷ rs) (q ∷ qs) x tail fr fq short e =
    let e' =
      sym (append_assoc (encode_record r) (encode_records rs) x)
      ∙ e
      ∙ append_assoc (encode_record q) (encode_records qs) tail in
    let heads = encode_record_injective r q _ _ fr.0 fq.0 e' in
    let (ps, split, rest, fits) = encode_records-prefix rs qs x tail fr.1 fq.1 short heads.1 in
    (ps, ap₂ ◌∷◌ (sym heads.0) split, rest, fits)
