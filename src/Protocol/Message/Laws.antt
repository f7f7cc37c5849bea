-- ===== src/Protocol/Message/Laws.antt =====
-- What the methods of protocol/message.go do: a reader undoes the writer of its type, with any
-- bytes behind, and a string is read up to its NUL.
use crunchy_proxy.Go.BigEndian.{uint16, uint32, be16, be32}
use crunchy_proxy.Go.{Bytes, HasNoNul, ok, eof}
use crunchy_proxy.Prelude.{
  ℕ, ◌^◌, ◌≤◌, ◌<◌, ◌≡◌, refl, ap, [], ◌∷◌, ◌++◌, some, none, arith, length,
}
use crunchy_proxy.Protocol.Message.{
  MessageBuffer, read_int16, read_int32, read_string, read_until_nul, trim_nul, trim_right_nul,
}

abbrev pub holding : Bytes → MessageBuffer
holding b = record { buffer = b }

pub read_int32-be32 :
    (v : ℕ) (rest : Bytes)
    → v < 2 ^ 32
    → read_int32 (holding (be32 v ++ rest)) ≡ ok ((v, none), holding rest)
unfolding read_int32 uint32 be32
read_int32-be32 v rest h = ap (λ n. ok ((n, none), holding rest)) (omega arith)

pub read_int16-be16 :
    (v : ℕ) (rest : Bytes)
    → v < 2 ^ 16
    → read_int16 (holding (be16 v ++ rest)) ≡ ok ((v, none), holding rest)
unfolding read_int16 uint16 be16
read_int16-be16 v rest h = ap (λ n. ok ((n, none), holding rest)) (omega arith)

pub read_until_nul-append :
    (s rest : Bytes) → HasNoNul s → read_until_nul (s ++ 0 ∷ rest) ≡ (s ++ 0 ∷ [], none, rest)
unfolding read_until_nul
read_until_nul-append [] rest h = refl
read_until_nul-append (c ∷ s) rest h = ground (arith, read_until_nul-append s rest h.1)

pub read_until_nul_eof : (s : Bytes) → HasNoNul s → read_until_nul s ≡ (s, some eof, [])
unfolding read_until_nul
read_until_nul_eof [] h = refl
read_until_nul_eof (c ∷ s) h = ground (arith, read_until_nul_eof s h.1)

trim_right_nul-append : (s : Bytes) → HasNoNul s → trim_right_nul (s ++ 0 ∷ []) ≡ s
unfolding trim_right_nul
trim_right_nul-append [] h = refl
trim_right_nul-append (c ∷ s) h = ground (arith, trim_right_nul-append s h.1)

trim_right_nul_self : (s : Bytes) → HasNoNul s → trim_right_nul s ≡ s
unfolding trim_right_nul
trim_right_nul_self [] h = refl
trim_right_nul_self (c ∷ s) h = ground (arith, trim_right_nul_self s h.1)

pub trim_nul-append : (s : Bytes) → HasNoNul s → trim_nul (s ++ 0 ∷ []) ≡ s
unfolding trim_nul
trim_nul-append [] h = refl
trim_nul-append (c ∷ s) h = ground (arith, trim_right_nul-append (c ∷ s) h)

pub trim_nul_self : (s : Bytes) → HasNoNul s → trim_nul s ≡ s
unfolding trim_nul
trim_nul_self [] h = refl
trim_nul_self (c ∷ s) h = ground (arith, trim_right_nul_self (c ∷ s) h)

pub read_string-append :
    (s rest : Bytes)
    → HasNoNul s
    → read_string (holding (s ++ 0 ∷ rest)) ≡ ok ((s, none), holding rest)
unfolding read_string
read_string-append s rest h = rw (read_until_nul-append s rest h, trim_nul-append s h)

pub read_string_eof :
    (s : Bytes) → HasNoNul s → read_string (holding s) ≡ ok ((s, some eof), holding [])
unfolding read_string
read_string_eof s h = rw (read_until_nul_eof s h, trim_nul_self s h)

-- What `ReadString` leaves is no longer than what it found.
pub read_until_nul-le : (b : Bytes) → length (read_until_nul b).2 ≤ length b
unfolding read_until_nul
read_until_nul-le [] = omega arith
read_until_nul-le (c ∷ b) = ground (arith, read_until_nul-le b)
