-- ===== src/Crc32.antt =====
-- `zlib.crc32` of the standard library: the reflected polynomial 0xEDB88320, over a list of bytes.
use Prim.Native.Nat.{bit_xor}
use bptreedb.Prelude.{
  ℕ, zero, suc, ◌/◌, ◌%◌, ◌^◌, ◌<◌, ◌≡◌, refl, List, [], ◌∷◌, arith, ◌==◌, if◌then◌else◌,
}

crc_bit : ℕ → ℕ
crc_bit c = if c % 2 == 1 then bit_xor (c / 2) 0xedb88320 else c / 2

crc_bits : ℕ → ℕ → ℕ
unfolding crc_bit
crc_bits zero c = c
crc_bits (suc n) c = crc_bits n (crc_bit c)

crc_loop : ℕ → List ℕ → ℕ
unfolding crc_bits
crc_loop c [] = c
crc_loop c (b ∷ bs) = crc_loop (crc_bits 8 (bit_xor c b)) bs

-- An unsigned number of 32 bits.
unfoldable pub crc32 : List ℕ → ℕ
unfolding crc_loop
crc32 bs = bit_xor (crc_loop 0xffffffff bs) 0xffffffff % 2 ^ 32

pub crc32-lt : (bs : List ℕ) → crc32 bs < 2 ^ 32
unfolding crc32
crc32-lt bs = omega arith

pub crc32-nil : crc32 [] ≡ 0
unfolding crc32
crc32-nil = refl

-- The check value of this CRC.
check_value : crc32 (b'1' ∷ b'2' ∷ b'3' ∷ b'4' ∷ b'5' ∷ b'6' ∷ b'7' ∷ b'8' ∷ b'9' ∷ []) ≡ 0xcbf43926
unfolding crc32
check_value = refl
