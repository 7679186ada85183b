-- ===== src/Struct/RoundTrip.antt =====
-- `Struct.pack` and `Struct.unpack` on each other's results.
use bptreedb.Prelude.{
  ℕ, zero, suc, ◌+◌, ◌/◌, ◌^◌, ◌<◌, ◌≡◌, refl, sym, ap, ap₂, ◌∙◌, [], ◌∷◌, ◌++◌, arith, replicate,
  length, drop, length-append, take-append_eq, drop-append_eq, append_assoc, append-nil, le→leb,
  lt→ltb, ==_iff, ◌≤◌,
}
use native.Mathlib.Nat.{pow-suc}
use bptreedb.Exceptions.{ok, >>=-eq-ok, ok-injective}
use bptreedb.Struct.{
  Bytes, Field, u8, u32, u64, raw, Struct, width, size, Value, Values, to_le, of_le, pack_uint,
  pack_field, pack, unpack_field, unpack_fields, unpack, unpack_from,
}

pub length-to_le : (n v : ℕ) → length (to_le n v) ≡ n
unfolding to_le
length-to_le zero v = refl
length-to_le (suc n) v = ap suc (length-to_le n (v / 256))

-- A number that fits in `n` bytes is read back from them.
pub of_le-to_le : (n v : ℕ) → v < 256 ^ n → of_le (to_le n v) ≡ v
unfolding to_le of_le
of_le-to_le zero v h = omega arith
of_le-to_le (suc n) v h = omega (arith, of_le-to_le n (v / 256) (omega (arith, pow-suc 256 n)))

pub pack_uint-eq-ok : (n v : ℕ) {b : Bytes} → pack_uint n v ≡ ok b → (v < 256 ^ n) × (b ≡ to_le n v)
unfolding pack_uint
pack_uint-eq-ok n v h = (ground arith, ground arith)

pack_uint_back : (n v : ℕ) {b : Bytes} → pack_uint n v ≡ ok b → (length b ≡ n) × (of_le b ≡ v)
pack_uint_back n v h =
    let (fits, e) = pack_uint-eq-ok n v h in rw e (length-to_le n v, of_le-to_le n v fits)

-- A text field holds its value unchanged if the value has exactly the field's width.
abbrev pub IsExactField : (f : Field) → Value f → Type 0
IsExactField u8 v = Unit {0}
IsExactField u32 v = Unit {0}
IsExactField u64 v = Unit {0}
IsExactField (raw n) v = length v ≡ n

abbrev pub IsExact : (s : Struct) → Values s → Type 0
IsExact [] vs = Unit {0}
IsExact (f ∷ fs) vs = IsExactField f vs.0 × IsExact fs vs.1

pack_field_back :
    (f : Field) (v : Value f) {b : Bytes}
    → IsExactField f v
    → pack_field f v ≡ ok b
    → (length b ≡ width f) × (unpack_field f b ≡ v)
unfolding pack_field unpack_field
pack_field_back u8 v x h = pack_uint_back 1 v h
pack_field_back u32 v x h = pack_uint_back 4 v h
pack_field_back u64 v x h = pack_uint_back 8 v h
pack_field_back (raw n) v x h =
    let e = sym (ok-injective h) ∙ take-append_eq n v (replicate n 0) x in rw e (x, refl)

-- What `pack` wrote has the size of the format, and is unpacked whatever stands behind it.
pub unpack_fields-pack :
    (s : Struct) (vs : Values s) {b : Bytes}
    → IsExact s vs
    → pack s vs ≡ ok b
    → (length b ≡ size s) × ((rest : Bytes) → unpack_fields s (b ++ rest) ≡ vs)
unfolding pack unpack_fields
unpack_fields-pack [] vs x h = (rw (← ok-injective h) refl, λ rest. refl)
unpack_fields-pack (f ∷ fs) vs x h =
    let (b₁, h₁, h') = >>=-eq-ok (pack_field f vs.0) _ h in
    let (b₂, h₂, h₃) = >>=-eq-ok (pack fs vs.1) _ h' in
    let (len₁, back₁) = pack_field_back f vs.0 x.0 h₁ in
    let (len₂, back₂) = unpack_fields-pack fs vs.1 x.1 h₂ in
    rw (← ok-injective h₃) (
      length-append b₁ b₂ ∙ ap₂ ◌+◌ len₁ len₂,
      λ rest.
          rw
            (
              append_assoc,
              take-append_eq (width f) b₁ (b₂ ++ rest) len₁,
              drop-append_eq (width f) b₁ (b₂ ++ rest) len₁,
            )
            (λ i. (back₁ i, back₂ rest i)),
    )

-- `unpack_from` at the place where `pack`'s bytes start.
pub unpack_from-pack :
    (s : Struct) (vs : Values s) (bytes : Bytes) (offset : ℕ) (b rest : Bytes)
    → IsExact s vs
    → pack s vs ≡ ok b
    → drop offset bytes ≡ b ++ rest
    → offset + size s ≤ length bytes
    → unpack_from s bytes offset ≡ ok vs
unfolding unpack_from
unpack_from-pack s vs bytes offset b rest x h e fits =
    rw (le→leb _ _ fits, e) (ap ok ((unpack_fields-pack s vs x h).1 rest))

-- `unpack` on exactly the packed bytes.
pub unpack-pack :
    (s : Struct) (vs : Values s) (b : Bytes) → IsExact s vs → pack s vs ≡ ok b → unpack s b ≡ ok vs
unfolding unpack
unpack-pack s vs b x h =
    let (len, back) = unpack_fields-pack s vs x h in
    rw ((==_iff _ _).1 len) (ap ok (ap (unpack_fields s) (sym (append-nil b)) ∙ back []))

-- The numbers that `pack` accepts.
abbrev pub InRangeField : (f : Field) → Value f → Type 0
InRangeField u8 v = v < 2 ^ 8
InRangeField u32 v = v < 2 ^ 32
InRangeField u64 v = v < 2 ^ 64
InRangeField (raw n) v = length v ≡ n

abbrev pub InRange : (s : Struct) → Values s → Type 0
InRange [] vs = Unit {0}
InRange (f ∷ fs) vs = InRangeField f vs.0 × InRange fs vs.1

pack_field_fits :
    (f : Field) (v : Value f)
    → InRangeField f v
    → (b : Bytes) × (pack_field f v ≡ ok b) × (length b ≡ width f)
unfolding pack_field
pack_field_fits u8 v h = (to_le 1 v, rw (lt→ltb v (256 ^ 1) h), length-to_le 1 v)
pack_field_fits u32 v h = (to_le 4 v, rw (lt→ltb v (256 ^ 4) h), length-to_le 4 v)
pack_field_fits u64 v h = (to_le 8 v, rw (lt→ltb v (256 ^ 8) h), length-to_le 8 v)
pack_field_fits (raw n) v h = (v, rw (take-append_eq n v (replicate n 0) h), h)

pub pack_fits :
    (s : Struct) (vs : Values s)
    → InRange s vs
    → (b : Bytes) × (pack s vs ≡ ok b) × (length b ≡ size s)
unfolding pack
pack_fits [] vs h = ([], refl, refl)
pack_fits (f ∷ fs) vs h =
    let (a, ea, la) = pack_field_fits f vs.0 h.0 in
    let (b, eb, lb) = pack_fits fs vs.1 h.1 in
    (a ++ b, rw (ea, eb), omega (arith, length-append a b, la, lb))
