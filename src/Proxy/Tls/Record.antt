-- ===== src/Proxy/Tls/Record.antt =====
-- TLS records as data, and the bytes that carry them: the view against which the loop is read.
use zk_prompt.Base.{
  ℕ, ◌+◌, ◌-◌, ◌*◌, ◌/◌, ◌%◌, ◌≤◌, ◌<◌, ◌≡◌, Bool, List, [], ◌∷◌, ◌++◌, Bytes, length, take, leb,
  ◌==◌, if◌then◌else◌, arith, length-append,
}

pub record TlsRecord : Type 0 where
  pub content_type : ℕ
  pub version_hi : ℕ
  pub version_lo : ℕ
  pub payload : Bytes

-- The length field has two bytes.
abbrev pub Fits : TlsRecord → Type 0
Fits r = length r.payload < 65536

abbrev pub AllFit : List TlsRecord → Type 0
AllFit [] = Unit {0}
AllFit (r ∷ rs) = Fits r × AllFit rs

abbrev pub encode_record : TlsRecord → Bytes
encode_record r =
    r.content_type
    ∷ r.version_hi
    ∷ r.version_lo
    ∷ (length r.payload / 256)
    ∷ (length r.payload % 256)
    ∷ r.payload

abbrev pub encode_records : List TlsRecord → Bytes
encode_records [] = []
encode_records (r ∷ rs) = encode_record r ++ encode_records rs

-- The ciphertext of an application data record without its tag.
unfoldable pub record_data : TlsRecord → Bytes
record_data r =
    if r.content_type == 0x17
    then (if leb 16 (length r.payload) then take (length r.payload - 16) r.payload else [])
    else []

abbrev pub records_data : List TlsRecord → Bytes
records_data [] = []
records_data (r ∷ rs) = record_data r ++ records_data rs

-- A record whose length field ends in the byte 53.
abbrev pub is_53 : TlsRecord → Bool
is_53 r = length r.payload % 256 == 53

-- A record that has not wholly arrived: no header, or fewer bytes than its header says.
abbrev pub IsIncomplete : Bytes → Type 0
IsIncomplete (t ∷ v ∷ w ∷ hi ∷ lo ∷ rest) = length rest < hi * 256 + lo
IsIncomplete _ = Unit {0}

pub length-encode_record : (r : TlsRecord) → length (encode_record r) ≡ length r.payload + 5
length-encode_record r = omega arith

pub records_le : (rs : List TlsRecord) → length rs ≤ length (encode_records rs)
records_le [] = omega arith
records_le (r ∷ rs) =
    omega (arith, length-append (encode_record r) (encode_records rs), records_le rs)
