-- ===== src/Go/Hash.antt =====
-- hash/fnv and hash/crc32, as far as the program calls them: 32-bit FNV-1a, and the CRC-32 of the
-- IEEE polynomial in its reflected form, a bit at a time.
use Prim.Native.Nat.{bit_xor}
use cachecore.Base.{ℕ, zero, suc, ◌*◌, ◌/◌, ◌%◌, ◌^◌, ◌≡◌, refl, [], ◌∷◌, ◌==◌, if◌then◌else◌}
use cachecore.Go.Bytes.{Bytes}

abbrev pub modulus32 : ℕ
modulus32 = 2 ^ 32

-- `h ^= uint32(b); h *= prime` for each byte
unfoldable pub fnv_loop : ℕ → Bytes → ℕ
fnv_loop h [] = h
fnv_loop h (b ∷ s) = fnv_loop (bit_xor h b * 16777619 % modulus32) s

unfoldable pub fnv32a : Bytes → ℕ
unfolding fnv_loop
fnv32a s = fnv_loop 2166136261 s

-- One bit of the division by the polynomial.
unfoldable pub crc_bits : ℕ → ℕ → ℕ
crc_bits zero c = c
crc_bits (suc n) c = crc_bits n (if c % 2 == 1 then bit_xor (c / 2) 0xedb88320 else c / 2)

unfoldable pub crc_loop : ℕ → Bytes → ℕ
unfolding crc_bits
crc_loop c [] = c
crc_loop c (b ∷ s) = crc_loop (crc_bits 8 (bit_xor c b)) s

unfoldable pub crc32 : Bytes → ℕ
unfolding crc_loop
crc32 s = bit_xor (crc_loop 0xffffffff s) 0xffffffff

-- The check value of both, over "123456789" and "a".
crc32_check : crc32 (b'1' ∷ b'2' ∷ b'3' ∷ b'4' ∷ b'5' ∷ b'6' ∷ b'7' ∷ b'8' ∷ b'9' ∷ []) ≡ 0xcbf43926
unfolding crc32
crc32_check = refl

fnv32a_check : fnv32a (b'a' ∷ []) ≡ 0xe40c292c
unfolding fnv32a
fnv32a_check = refl
