-- ===== src/Struct.antt =====
-- `struct.Struct` of the standard library, for the little-endian formats that the codec uses.
pub mod RoundTrip
use bptreedb.Prelude.{
  ℕ, zero, suc, ◌+◌, ◌*◌, ◌/◌, ◌%◌, ◌^◌, List, [], ◌∷◌, ◌++◌, ltb, leb, ◌==◌, if◌then◌else◌, length,
  take, drop, replicate,
}
use bptreedb.Exceptions.{Result, ok, err, struct_error, ◌>>=◌}

abbrev pub Bytes : Type 0
Bytes = List ℕ

-- The codes `B`, `I`, `Q` and `ns` of a format.
pub data Field : Type 0 where
  u8 u32 u64 : Field
  raw : ℕ → Field

abbrev pub Struct : Type 0
Struct = List Field

abbrev pub width : Field → ℕ
width u8 = 1
width u32 = 4
width u64 = 8
width (raw n) = n

abbrev pub size : Struct → ℕ
size [] = 0
size (f ∷ fs) = width f + size fs

abbrev pub Value : Field → Type 0
Value u8 = ℕ
Value u32 = ℕ
Value u64 = ℕ
Value (raw n) = Bytes

-- The tuple of values that a format packs.
abbrev pub Values : Struct → Type 0
Values [] = Unit {0}
Values (f ∷ fs) = Value f × Values fs

pub to_le : ℕ → ℕ → Bytes
to_le zero v = []
to_le (suc n) v = (v % 256) ∷ to_le n (v / 256)

pub of_le : Bytes → ℕ
of_le [] = 0
of_le (b ∷ bs) = b + 256 * of_le bs

-- A number that does not fit its field raises `struct.error`.
pub pack_uint : ℕ → ℕ → Result Bytes
unfolding to_le
pack_uint n v = if ltb v (256 ^ n) then ok (to_le n v) else err struct_error

pub pack_field : (f : Field) → Value f → Result Bytes
unfolding pack_uint
pack_field u8 v = pack_uint 1 v
pack_field u32 v = pack_uint 4 v
pack_field u64 v = pack_uint 8 v
pack_field (raw n) v = ok (take n (v ++ replicate n 0))

unfoldable pub pack : (s : Struct) → Values s → Result Bytes
unfolding pack_field
pack [] vs = ok []
pack (f ∷ fs) vs = do b ← pack_field f vs.0; bs ← pack fs vs.1; ok (b ++ bs)

pub unpack_field : (f : Field) → Bytes → Value f
unfolding of_le
unpack_field u8 bs = of_le bs
unpack_field u32 bs = of_le bs
unpack_field u64 bs = of_le bs
unpack_field (raw n) bs = bs

unfoldable pub unpack_fields : (s : Struct) → Bytes → Values s
unfolding unpack_field
unpack_fields [] bs = tt
unpack_fields (f ∷ fs) bs =
    (unpack_field f (take (width f) bs), unpack_fields fs (drop (width f) bs))

-- `st.unpack(data)`: the buffer must have exactly the size of the format.
unfoldable pub unpack : (s : Struct) → Bytes → Result (Values s)
unfolding unpack_fields
unpack s bytes = if length bytes == size s then ok (unpack_fields s bytes) else err struct_error

-- `st.unpack_from(data, offset)`: the buffer must reach behind the last field.
unfoldable pub unpack_from : (s : Struct) → Bytes → ℕ → Result (Values s)
unfolding unpack_fields
unpack_from s bytes offset =
    if leb (offset + size s) (length bytes)
    then ok (unpack_fields s (drop offset bytes))
    else err struct_error
