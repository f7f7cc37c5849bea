-- ===== src/Connect/Buffers.antt =====
-- What `Receive` leaves in its buffer.
use crunchy_proxy.Connect.{received, buffer_size}
use crunchy_proxy.Go.{
  Bytes, IsBytes, ok, IoError, equal, index, slice_to, slice_to-eq-ok, slice-eq-ok,
}
use crunchy_proxy.Prelude.{
  ℕ, zero, suc, ◌≤◌, ◌<◌, ◌≡◌, refl, ap, ◌∙◌, Bool, false, Option, List, [], ◌∷◌, All, arith,
  length, take, min,
}
use crunchy_proxy.Protocol.Authentication
use crunchy_proxy.Protocol.Frame.Layout.{frame, is_authentication_ok_exact}
use crunchy_proxy.Protocol.Frame.{is_authentication_ok, get_message_type, get_version}
use crunchy_proxy.Protocol.MessageType
use crunchy_proxy.Protocol.Message.{fill, first_or_zero}
use crunchy_proxy.Go.BigEndian.{be32, uint32}

pub length-fill : (n : ℕ) (b : Bytes) → length (fill n b) ≡ n
unfolding fill
length-fill zero b = refl
length-fill (suc n) [] = ap suc (length-fill n [])
length-fill (suc n) (x ∷ b) = ap suc (length-fill n b)

fill-IsBytes : (n : ℕ) (b : Bytes) → IsBytes b → IsBytes (fill n b)
unfolding fill
fill-IsBytes zero b h = tt
fill-IsBytes (suc n) [] h = (omega arith, fill-IsBytes n [] tt)
fill-IsBytes (suc n) (x ∷ b) h = (h.0, fill-IsBytes n b h.1)

take_count : (k n : ℕ) (b : Bytes) → k ≡ min n (length b) → take k (fill n b) ≡ take n b
unfolding fill
take_count zero zero b e = refl
take_count zero (suc n) [] e = refl
take_count zero (suc n) (x ∷ b) e = absurd (omega arith)
take_count (suc k) zero b e = absurd (omega arith)
take_count (suc k) (suc n) [] e = absurd (omega arith)
take_count (suc k) (suc n) (x ∷ b) e = ap (λ t. x ∷ t) (take_count k n b (omega arith))

-- The bytes that are there, cut off at the end of the buffer.
pub take-fill : (n : ℕ) (b : Bytes) → take (min n (length b)) (fill n b) ≡ take n b
take-fill n b = take_count (min n (length b)) n b refl

-- The AuthenticationOk message of a backend
abbrev pub ok_message : Bytes
ok_message = frame MessageType.authentication (be32 Authentication.success)

-- Does the buffer begin with an AuthenticationOk message once the chunk is in it?
abbrev pub says_ok : Bytes → Bool
says_ok chunk = equal (take 9 (fill buffer_size chunk)) ok_message

pub is_authentication_ok-fill :
    (chunk : Bytes)
    → IsBytes chunk
    → is_authentication_ok (fill buffer_size chunk) ≡ ok (says_ok chunk)
is_authentication_ok-fill chunk h =
    is_authentication_ok_exact (fill buffer_size chunk) (fill-IsBytes buffer_size chunk h)
      (omega (arith, length-fill buffer_size chunk))

pub index-fill : (n x : ℕ) (b : Bytes) → 0 < n → index (fill n (x ∷ b)) 0 ≡ ok x
unfolding fill index
index-fill zero x b h = absurd (omega arith)
index-fill (suc n) x b h = refl

pub get_message_type-fill :
    (n : ℕ) (b : Bytes) → 0 < n → get_message_type (fill n b) ≡ ok (first_or_zero b)
unfolding get_message_type index fill
get_message_type-fill zero b h = absurd (omega arith)
get_message_type-fill (suc n) b h = refl

-- What of a chunk a read takes.
pub slice_to-received :
    (b : Bytes) (err : Option IoError)
    → slice_to (received (b, err)).buffer (received (b, err)).length ≡ ok (take buffer_size b)
unfolding received
slice_to-received b err =
    slice_to-eq-ok (fill buffer_size b) (min buffer_size (length b))
      (omega (arith, length-fill buffer_size b))
    ∙ ap ok (take-fill buffer_size b)

pub says_ok-nil : says_ok [] ≡ false
unfolding fill equal be32
says_ok-nil = refl

-- What the connection carries are bytes.
abbrev pub AreBytes : List (Bytes × Option IoError) → Type 0
AreBytes = All (λ p. IsBytes p.0)

get_version_total : (m : Bytes) → 8 ≤ length m → (v : ℕ) × (get_version m ≡ ok v)
unfolding get_version uint32
get_version_total (a ∷ b ∷ c ∷ d ∷ e ∷ f ∷ g ∷ h ∷ m) long =
    rw (slice-eq-ok (a ∷ b ∷ c ∷ d ∷ e ∷ f ∷ g ∷ h ∷ m) 4 8 (omega arith) long, get_version)
      (_, refl)
get_version_total _ long = absurd (omega arith)

pub get_version-fill : (n : ℕ) (b : Bytes) → 8 ≤ n → (v : ℕ) × (get_version (fill n b) ≡ ok v)
get_version-fill n b h = get_version_total (fill n b) (omega (arith, length-fill n b))

pub length-received :
    (b : Bytes) (err : Option IoError)
    → (received (b, err)).length ≤ length (received (b, err)).buffer
unfolding received
length-received b err = omega (arith, length-fill buffer_size b)
