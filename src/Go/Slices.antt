-- ===== src/Go/Slices.antt =====
-- Byte slices. A slice is the list of its bytes, its capacity being its length: that holds for the
-- 4096-byte buffers that the source cuts pieces from.
use Prim.Native.Char.{code}
use Prim.Native.String.{String}
use crunchy_proxy.Prelude.{
  ℕ, ◌-◌, ◌<◌, ◌≤◌, le→leb, ◌≡◌, ◌↔◌, Bool, true, false, ◌&&◌, List, [], ◌∷◌, Option, none, some,
  arith, ◌==◌, leb, length, take, drop, get_elem?, if◌then◌else◌, All,
}
use crunchy_proxy.Go.Results.{Outcome, ok, panic}

abbrev pub Bytes : Type 0
Bytes = List ℕ

-- every element is a byte
abbrev pub IsBytes : Bytes → Type 0
IsBytes = All (λ (b : ℕ). b < 256)

-- no element is NUL
abbrev pub HasNoNul : Bytes → Type 0
HasNoNul = All (λ (b : ℕ). 0 < b)

-- The bytes of an ASCII literal.
abbrev pub codes : String → Bytes
codes String.[] = []
codes (String.◌∷◌ c s) = code c ∷ codes s

-- `a == b` on strings, and `bytes.Equal`.
unfoldable pub equal : Bytes → Bytes → Bool
equal [] [] = true
equal (x ∷ xs) (y ∷ ys) = x == y && equal xs ys
equal _ _ = false

pub equal_iff : (s t : Bytes) → (equal s t ≡ true) ↔ (s ≡ t)
unfolding equal
equal_iff [] [] = ground arith
equal_iff [] (d ∷ t) = ground arith
equal_iff (c ∷ s) [] = ground arith
equal_iff (c ∷ s) (d ∷ t) = ground (arith, equal_iff s t)

abbrev or_panic {ℓ} : {A : Type ℓ} → Option A → Outcome A
or_panic none = panic
or_panic (some a) = ok a

-- `b[i]`
unfoldable pub index : Bytes → ℕ → Outcome ℕ
index b i = or_panic (get_elem? b i)

-- `b[lo:hi]`
unfoldable pub slice : Bytes → ℕ → ℕ → Outcome Bytes
slice b lo hi = if leb lo hi && leb hi (length b) then ok (take (hi - lo) (drop lo b)) else panic

-- `b[lo:]`
unfoldable pub slice_from : Bytes → ℕ → Outcome Bytes
slice_from b lo = if leb lo (length b) then ok (drop lo b) else panic

-- `b[:hi]`
unfoldable pub slice_to : Bytes → ℕ → Outcome Bytes
slice_to b hi = if leb hi (length b) then ok (take hi b) else panic

pub slice-eq-ok :
    (b : Bytes) (lo hi : ℕ)
    → lo ≤ hi
    → hi ≤ length b
    → slice b lo hi ≡ ok (take (hi - lo) (drop lo b))
unfolding slice
slice-eq-ok b lo hi h k = rw (le→leb lo hi h, le→leb hi (length b) k)

pub slice_from-eq-ok : (b : Bytes) (lo : ℕ) → lo ≤ length b → slice_from b lo ≡ ok (drop lo b)
unfolding slice_from
slice_from-eq-ok b lo h = rw (le→leb lo (length b) h)

pub slice_to-eq-ok : (b : Bytes) (hi : ℕ) → hi ≤ length b → slice_to b hi ≡ ok (take hi b)
unfolding slice_to
slice_to-eq-ok b hi h = rw (le→leb hi (length b) h)
