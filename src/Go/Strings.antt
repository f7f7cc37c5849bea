-- ===== src/Go/Strings.antt =====
-- The functions of package strings that the source calls, on the bytes of a string.
use crunchy_proxy.Go.Slices.{Bytes}
use crunchy_proxy.Prelude.{
  ℕ, zero, suc, ◌+◌, ◌≤◌, ◌≡◌, inl, inr, Bool-cases, Option-cases, arith, Bool, true, false, List,
  [], ◌∷◌, map, Option, none, some, ◌==◌, length, if◌then◌else◌,
}
use mathlib.Core.List.{reverse}
use mathlib.Core.Option

-- what follows the prefix `p` of `s`; `none` if `s` does not begin with `p`
unfoldable pub strip_prefix : Bytes → Bytes → Option Bytes
strip_prefix [] s = some s
strip_prefix (x ∷ p) [] = none
strip_prefix (x ∷ p) (y ∷ s) = if x == y then strip_prefix p s else none

-- `strings.HasPrefix(s, p)`
unfoldable pub has_prefix : Bytes → Bytes → Bool
unfolding strip_prefix
has_prefix s p = elim (strip_prefix p s) [ none ↦ false | some _ ↦ true ]

-- `strings.Index(s, sep)`, for a `sep` that is not empty; `none` is -1
unfoldable pub index_of : Bytes → Bytes → Option ℕ
unfolding has_prefix
index_of [] sep = none
index_of (x ∷ s) sep = if has_prefix (x ∷ s) sep then some 0 else Option.map suc (index_of s sep)

abbrev push_front : ℕ → List Bytes → List Bytes
push_front c [] = (c ∷ []) ∷ []
push_front c (w ∷ ws) = (c ∷ w) ∷ ws

-- `strings.Split(s, sep)`, for a `sep` of one byte
unfoldable pub split : ℕ → Bytes → List Bytes
split sep [] = [] ∷ []
split sep (c ∷ s) = if c == sep then [] ∷ split sep s else push_front c (split sep s)

-- the UTF-8 encodings of the characters that `unicode.IsSpace` accepts
abbrev pub spaces : List Bytes
spaces =
    (9 ∷ [])
    ∷ (10 ∷ [])
    ∷ (11 ∷ [])
    ∷ (12 ∷ [])
    ∷ (13 ∷ [])
    ∷ (32 ∷ [])
    ∷ (0xc2 ∷ 0x85 ∷ [])
    ∷ (0xc2 ∷ 0xa0 ∷ [])
    ∷ (0xe1 ∷ 0x9a ∷ 0x80 ∷ [])
    ∷ (0xe2 ∷ 0x80 ∷ 0x80 ∷ [])
    ∷ (0xe2 ∷ 0x80 ∷ 0x81 ∷ [])
    ∷ (0xe2 ∷ 0x80 ∷ 0x82 ∷ [])
    ∷ (0xe2 ∷ 0x80 ∷ 0x83 ∷ [])
    ∷ (0xe2 ∷ 0x80 ∷ 0x84 ∷ [])
    ∷ (0xe2 ∷ 0x80 ∷ 0x85 ∷ [])
    ∷ (0xe2 ∷ 0x80 ∷ 0x86 ∷ [])
    ∷ (0xe2 ∷ 0x80 ∷ 0x87 ∷ [])
    ∷ (0xe2 ∷ 0x80 ∷ 0x88 ∷ [])
    ∷ (0xe2 ∷ 0x80 ∷ 0x89 ∷ [])
    ∷ (0xe2 ∷ 0x80 ∷ 0x8a ∷ [])
    ∷ (0xe2 ∷ 0x80 ∷ 0xa8 ∷ [])
    ∷ (0xe2 ∷ 0x80 ∷ 0xa9 ∷ [])
    ∷ (0xe2 ∷ 0x80 ∷ 0xaf ∷ [])
    ∷ (0xe2 ∷ 0x81 ∷ 0x9f ∷ [])
    ∷ (0xe3 ∷ 0x80 ∷ 0x80 ∷ [])
    ∷ []

-- what follows the first of the words `ws` that `s` begins with
strip_any : List Bytes → Bytes → Option Bytes
unfolding strip_prefix
strip_any [] s = none
strip_any (w ∷ ws) s = elim (strip_prefix w s) [ none ↦ strip_any ws s | some rest ↦ some rest ]

-- Cuts words of `ws` off the front while there is one; each cut takes a byte or more, so that the
-- length of `s` is fuel enough.
trim_front : ℕ → List Bytes → Bytes → Bytes
unfolding strip_any
trim_front zero ws s = s
trim_front (suc fuel) ws s = elim (strip_any ws s) [
  | none ↦ s
  | some rest ↦ trim_front fuel ws rest
]

-- `strings.TrimSpace(s)`
unfoldable pub trim_space : Bytes → Bytes
unfolding trim_front
trim_space s =
    let t = trim_front (length s) spaces s in
    reverse (trim_front (length t) (map reverse spaces) (reverse t))

strip_prefix-le : (p s rest : Bytes) → strip_prefix p s ≡ some rest → length p ≤ length s
unfolding strip_prefix
strip_prefix-le [] s rest e = omega arith
strip_prefix-le (x ∷ p) [] rest e = cc
strip_prefix-le (x ∷ p) (y ∷ s) rest e = ground (arith, strip_prefix-le p s rest)

has_prefix-le : (s p : Bytes) → has_prefix s p ≡ true → length p ≤ length s
unfolding has_prefix
has_prefix-le s p e = elim (Option-cases (strip_prefix p s)) [
  | inl miss ↦ ground arith
  | inr (rest, hit) ↦ strip_prefix-le p s rest hit
]

-- An occurrence lies within the string.
pub index_of-le : (s sep : Bytes) (i : ℕ) → index_of s sep ≡ some i → i + length sep ≤ length s
unfolding index_of
index_of-le [] sep i e = cc
index_of-le (x ∷ s) sep i e = elim (Bool-cases (has_prefix (x ∷ s) sep)) [
  | inl here ↦ ground (arith, has_prefix-le (x ∷ s) sep here)
  | inr later ↦ elim (Option-cases (index_of s sep)) [
    | inl miss ↦ ground arith
    | inr (j, hit) ↦ ground (arith, index_of-le s sep j hit)
  ]
]
