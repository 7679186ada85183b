-- ===== src/Codec/Buffer.antt =====
-- `BufferWriter`, `BufferReader` and `verify_crc32` of src/bptreedb/codec.py: the lemmas that the
-- encoders and decoders share.
use bptreedb.Prelude.{
  ℕ, ◌+◌, ◌-◌, ◌≤◌, ◌<◌, ◌^◌, ◌≡◌, refl, sym, ap, ◌∙◌, [], ◌++◌, arith, length, drop, length-append,
  take-append_eq, drop-append_eq, drop-add, length-drop, ==-refl, append-nil, append_assoc,
}
use bptreedb.Exceptions.{ok, >>=-eq-ok, ok-injective}
use bptreedb.Crc32.{crc32, crc32-lt}
use bptreedb.Struct.{Bytes, Struct, size, Values, pack}
use bptreedb.Struct.RoundTrip.{
  IsExact, InRange, pack_fits, unpack_fields-pack, unpack_from-pack, unpack-pack,
}
use bptreedb.Codec.{
  BufferReader, reader_of, length_field, crc32_field, read_struct, read_bytes,
  read_length_prefixed_bytes, write_struct, write_bytes, write_length_prefixed_bytes, write_crc32,
  verify_crc32,
}

-- The unread part of a reader's buffer.
abbrev pub unread : BufferReader → Bytes
unread r = drop r.offset r.bytes

abbrev pub advance : ℕ → BufferReader → BufferReader
advance n r = record r { offset = r.offset + n }

-- `b` is what comes next, and `rest` is behind it. The offset stands within the buffer.
pub record Reads (r : BufferReader) (b rest : Bytes) : Type 0 where
  pub ahead : unread r ≡ b ++ rest
  pub inside : r.offset ≤ length r.bytes

pub Reads-advance :
    (r : BufferReader) (n : ℕ) (b c rest : Bytes)
    → Reads r (b ++ c) rest
    → length b ≡ n
    → Reads (advance n r) c rest
Reads-advance r n b c rest h e = record {
  ahead = drop-add r.offset n r.bytes b (c ++ rest) (h.ahead ∙ append_assoc b c rest) e;
  inside = omega (
    arith,
    length-drop r.offset r.bytes,
    ap length h.ahead,
    length-append (b ++ c) rest,
    length-append b c,
  );
}

-- `write_struct` appends; what it appended is read back, and the reader stands behind it.
pub write_struct-eq-ok :
    (s : Struct) (vs : Values s) (w : Bytes) {w' : Bytes}
    → write_struct s vs w ≡ ok w'
    → (b : Bytes) × (pack s vs ≡ ok b) × (w' ≡ w ++ b)
unfolding write_struct
write_struct-eq-ok s vs w h =
    let (b, p, q) = >>=-eq-ok (pack s vs) _ h in (b, p, sym (ok-injective q))

pub read_struct-pack :
    (s : Struct) (vs : Values s) (r : BufferReader) (b rest : Bytes)
    → IsExact s vs
    → pack s vs ≡ ok b
    → Reads r b rest
    → read_struct s r ≡ ok (vs, advance (size s) r)
unfolding read_struct
read_struct-pack s vs r b rest x h h' = rw (
    unpack_from-pack s vs r.bytes r.offset b rest x h h'.ahead (
      omega (
        arith,
        length-drop r.offset r.bytes,
        ap length h'.ahead,
        length-append b rest,
        (unpack_fields-pack s vs x h).0,
        h'.inside,
      )))

pub read_bytes-ahead :
    (r : BufferReader) (b rest : Bytes)
    → Reads r b rest
    → read_bytes (length b) r ≡ (b, advance (length b) r)
unfolding read_bytes
read_bytes-ahead r b rest h = rw (h.ahead, take-append_eq (length b) b rest refl)

-- A length-prefixed value: what was appended, and that it is read back.
pub record Prefixed (value b : Bytes) : Type 0 where
  pub counted : length b ≡ 4 + length value
  pub read_back :
      (r : BufferReader) (rest : Bytes)
      → Reads r b rest
      → read_length_prefixed_bytes r ≡ ok (value, advance (4 + length value) r)

pub Reads-head :
    (r : BufferReader) (b c rest : Bytes) → Reads r (b ++ c) rest → Reads r b (c ++ rest)
Reads-head r b c rest h = record { ahead = h.ahead ∙ append_assoc b c rest; inside = h.inside }

pub Reads-start : (b c : Bytes) → b ≡ c → Reads (reader_of b) c []
Reads-start b c e = record { ahead = e ∙ sym (append-nil c); inside = omega arith }

Prefixed-intro :
    (value p : Bytes) → pack length_field (length value, tt) ≡ ok p → Prefixed value (p ++ value)
unfolding read_length_prefixed_bytes read_bytes
Prefixed-intro value p packed = record { counted = counted; read_back = read_back }
  where
    len : length p ≡ 4
    len = (unpack_fields-pack length_field (length value, tt) (tt, tt) packed).0

    counted : length (p ++ value) ≡ 4 + length value
    counted = omega (arith, length-append p value, len)

    behind : (n m k : ℕ) → n + 4 + m ≡ n + (4 + m)
    behind n m k = omega arith

    read_back :
        (r : BufferReader) (rest : Bytes)
        → Reads r (p ++ value) rest
        → read_length_prefixed_bytes r ≡ ok (value, advance (4 + length value) r)
    read_back r rest h = rw (
      read_struct-pack length_field (length value, tt) r p (value ++ rest) (tt, tt) packed
          (Reads-head r p value rest h),
      (Reads-advance r 4 p value rest h len).ahead,
      take-append_eq (length value) value rest refl,
      behind r.offset (length value) 0,
    )

pub write_length-Prefixed-eq-ok :
    (value w : Bytes) {w' : Bytes}
    → write_length_prefixed_bytes value w ≡ ok w'
    → (b : Bytes) × (w' ≡ w ++ b) × Prefixed value b
unfolding write_length_prefixed_bytes write_bytes
write_length-Prefixed-eq-ok value w h =
    let (w₁, h₁, h₂) = >>=-eq-ok (write_struct length_field (length value, tt) w) _ h in
    let (p, packed, e) = write_struct-eq-ok length_field (length value, tt) w h₁ in
    (
      p ++ value,
      sym (ok-injective h₂) ∙ ap (λ x. x ++ value) e ∙ append_assoc w p value,
      Prefixed-intro value p packed,
    )

-- A call of `write_crc32` that succeeds appends four bytes, and the whole passes `verify_crc32`.
pub verify_crc32-write_crc32 :
    (w : Bytes) {w' : Bytes}
    → write_crc32 w ≡ ok w'
    → (b : Bytes) × (w' ≡ w ++ b) × (length b ≡ 4) × (verify_crc32 w' ≡ ok tt)
unfolding write_crc32 verify_crc32
verify_crc32-write_crc32 w h =
    let (b, packed, e) = write_struct-eq-ok crc32_field (crc32 w, tt) w h in
    let len = (unpack_fields-pack crc32_field (crc32 w, tt) (tt, tt) packed).0 in
    (b, e, len, rw e (passes b packed len))
  where
    passes :
        (b : Bytes)
        → pack crc32_field (crc32 w, tt) ≡ ok b
        → length b ≡ 4
        → verify_crc32 (w ++ b) ≡ ok tt
    passes b packed len =
        let cut : length (w ++ b) - 4 ≡ length w = omega (arith, length-append w b, len) in
        rw (
          cut,
          drop-append_eq (length w) w b refl,
          take-append_eq (length w) w b refl,
          unpack-pack crc32_field (crc32 w, tt) b (tt, tt) packed,
          ==-refl (crc32 w),
        )

-- Values in range are written.
pub write_struct_fits :
    (s : Struct) (vs : Values s) (w : Bytes)
    → InRange s vs
    → (b : Bytes) × (write_struct s vs w ≡ ok (w ++ b)) × (length b ≡ size s)
unfolding write_struct
write_struct_fits s vs w fits = let (b, e, len) = pack_fits s vs fits in (b, rw e, len)

pub write_length_prefixed_fits :
    (value w : Bytes)
    → length value < 2 ^ 32
    → (b : Bytes) × (write_length_prefixed_bytes value w ≡ ok (w ++ b))
      × (length b ≡ 4 + length value)
unfolding write_length_prefixed_bytes write_bytes
write_length_prefixed_fits value w fits =
    let (b, e, len) = write_struct_fits length_field (length value, tt) w (fits, tt) in
    (b ++ value, rw e (ap ok (append_assoc w b value)), omega (arith, length-append b value, len))

pub write_crc32_fits : (w : Bytes) → (b : Bytes) × (write_crc32 w ≡ ok (w ++ b)) × (length b ≡ 4)
unfolding write_crc32
write_crc32_fits w = write_struct_fits crc32_field (crc32 w, tt) w (crc32-lt w, tt)
