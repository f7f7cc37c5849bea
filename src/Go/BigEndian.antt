-- ===== src/Go/BigEndian.antt =====
-- encoding/binary, big-endian. An int32 or int16 is its bit pattern, a number below 2 ^ 32 or
-- 2 ^ 16; `signed32` is the integer that a pattern stands for.
use crunchy_proxy.Go.Slices.{Bytes, IsBytes}
use crunchy_proxy.Go.Results.{Outcome, ok, panic}
use crunchy_proxy.Prelude.{
  ℕ, ◌+◌, ◌*◌, ◌/◌, ◌%◌, ◌^◌, ◌<◌, ◌≡◌, refl, ap, [], ◌∷◌, ◌++◌, arith, length,
}

-- `binary.BigEndian.Uint32`, which reads the first four bytes of its argument
unfoldable pub uint32 : Bytes → Outcome ℕ
uint32 (a ∷ b ∷ c ∷ d ∷ _) = ok (a * 2 ^ 24 + b * 2 ^ 16 + c * 2 ^ 8 + d)
uint32 _ = panic

-- `binary.BigEndian.Uint16`
unfoldable pub uint16 : Bytes → Outcome ℕ
uint16 (a ∷ b ∷ _) = ok (a * 2 ^ 8 + b)
uint16 _ = panic

-- the four bytes that `binary.BigEndian.PutUint32` writes
unfoldable pub be32 : ℕ → Bytes
be32 v = v / 2 ^ 24 % 256 ∷ v / 2 ^ 16 % 256 ∷ v / 2 ^ 8 % 256 ∷ v % 256 ∷ []

-- the two bytes that `binary.BigEndian.PutUint16` writes
unfoldable pub be16 : ℕ → Bytes
be16 v = v / 2 ^ 8 % 256 ∷ v % 256 ∷ []

-- `binary.BigEndian.PutUint32(s, v)`: the new contents of `s`
unfoldable pub put_uint32 : Bytes → ℕ → Outcome Bytes
put_uint32 (_ ∷ _ ∷ _ ∷ _ ∷ rest) v = ok (be32 v ++ rest)
put_uint32 _ v = panic

pub uint32-be32 : (v : ℕ) (rest : Bytes) → v < 2 ^ 32 → uint32 (be32 v ++ rest) ≡ ok v
unfolding uint32 be32
uint32-be32 v rest h = ap ok (omega arith)

pub uint16-be16 : (v : ℕ) (rest : Bytes) → v < 2 ^ 16 → uint16 (be16 v ++ rest) ≡ ok v
unfolding uint16 be16
uint16-be16 v rest h = ap ok (omega arith)

pub be32-IsBytes : (v : ℕ) → IsBytes (be32 v)
unfolding be32
be32-IsBytes v = omega arith

pub length-be32 : (v : ℕ) → length (be32 v) ≡ 4
unfolding be32
length-be32 v = refl
