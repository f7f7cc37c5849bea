-- ===== src/Protocol/Message.antt =====
-- protocol/message.go: `MessageBuffer`, the reader and writer of PostgreSQL messages. A method is
-- an action on the buffer: it returns the method's results and the buffer that it leaves, or
-- panics. `bytes.Buffer` is the list of its unread bytes, its writes never fail, and its `Read`
-- takes what there is, with `io.EOF` for nothing at all.
pub mod Laws
pub mod RoundTrip
use crunchy_proxy.Go.BigEndian.{uint16, uint32, be16, be32, put_uint32}
use crunchy_proxy.Go.{Bytes, Outcome, ok, panic, blocked, IoError, eof, slice_from}
use crunchy_proxy.Prelude.{
  ℕ, zero, suc, ◌%◌, ◌^◌, Bool, List, [], ◌∷◌, ◌++◌, Option, none, some, ◌==◌, length, take, drop,
  if◌then◌else◌,
}

pub record MessageBuffer : Type 0 where
  pub buffer : Bytes

-- `PGMessageLengthOffsetStartup`
abbrev pub length_offset_startup : ℕ
length_offset_startup = 0

-- `PGMessageLengthOffset`
abbrev pub length_offset : ℕ
length_offset = 1

abbrev pub M : Type 0 → Type 0
M A = MessageBuffer → Outcome (A × MessageBuffer)

abbrev pub and_then :
    {A B : Type 0} → Outcome (A × MessageBuffer) → (A → M B) → Outcome (B × MessageBuffer)
and_then (ok (a, b)) f = f a b
and_then panic f = panic
and_then blocked f = blocked

infixl 5 ◌>>=◌ ◌>>◌
abbrev pub ◌>>=◌ : {A B : Type 0} → M A → (A → M B) → M B
◌>>=◌ m f b = and_then (m b) f

abbrev pub ◌>>◌ : {A B : Type 0} → M A → M B → M B
m >> k = m >>= λ _. k

abbrev pub return : {A : Type 0} → A → M A
return a b = ok (a, b)

abbrev pub lift : {A : Type 0} → Outcome A → M A
lift (ok a) b = ok (a, b)
lift panic b = panic
lift blocked b = blocked

abbrev pub new_message_buffer : Bytes → MessageBuffer
new_message_buffer message = record { buffer = message }

abbrev pub result_of : {A : Type 0} → Outcome (A × MessageBuffer) → Outcome A
result_of (ok (a, _)) = ok a
result_of panic = panic
result_of blocked = blocked

-- The result of an action on a new buffer.
abbrev pub run_on : {A : Type 0} → Bytes → M A → Outcome A
run_on message m = result_of (m (new_message_buffer message))

abbrev pub first_or_zero : Bytes → ℕ
first_or_zero [] = 0
first_or_zero (x ∷ b) = x

abbrev rest_of : Bytes → Bytes
rest_of [] = []
rest_of (x ∷ b) = b

-- A zeroed slice of `n` bytes after the bytes of `b` were copied to its front.
unfoldable pub fill : ℕ → Bytes → Bytes
fill zero b = []
fill (suc n) b = first_or_zero b ∷ fill n (rest_of b)

-- `make([]byte, n)`, filled by `buffer.Read`.
unfoldable pub buffer_read : ℕ → M (Bytes × Option IoError)
unfolding fill
buffer_read zero m = ok (([], none), m)
buffer_read (suc n) m = elim m.buffer [
  | [] ↦ ok ((fill (suc n) [], some eof), m)
  | x ∷ b ↦ ok ((fill (suc n) (x ∷ b), none), record { buffer = drop (suc n) (x ∷ b) })
]

abbrev decoded : (Bytes → Outcome ℕ) → Bytes × Option IoError → M (ℕ × Option IoError)
decoded uint (value, some e) = return (0, some e)
decoded uint (value, none) = do n ← lift (uint value); return (n, none)

unfoldable pub read_int32 : M (ℕ × Option IoError)
unfolding buffer_read
read_int32 = buffer_read 4 >>= decoded uint32

unfoldable pub read_int16 : M (ℕ × Option IoError)
unfolding buffer_read
read_int16 = buffer_read 2 >>= decoded uint16

unfoldable pub read_byte : M (ℕ × Option IoError)
read_byte m = elim m.buffer [
  | [] ↦ ok ((0, some eof), m)
  | x ∷ b ↦ ok ((x, none), record { buffer = b })
]

-- A nil slice is the empty one.
abbrev read_or_nil : Bytes × Option IoError → Bytes × Option IoError
read_or_nil (value, some e) = ([], some e)
read_or_nil (value, none) = (value, none)

unfoldable pub read_bytes : ℕ → M (Bytes × Option IoError)
unfolding buffer_read
read_bytes count = do r ← buffer_read count; return (read_or_nil r)

abbrev push_front : ℕ → Bytes × Option IoError × Bytes → Bytes × Option IoError × Bytes
push_front c (line, err, rest) = (c ∷ line, err, rest)

-- `buffer.ReadString(0x00)`: the bytes up to the first NUL with it, or all of them and `io.EOF`.
unfoldable pub read_until_nul : Bytes → Bytes × Option IoError × Bytes
read_until_nul [] = ([], some eof, [])
read_until_nul (c ∷ b) = if c == 0 then (c ∷ [], none, b) else push_front c (read_until_nul b)

unfoldable pub trim_left_nul : Bytes → Bytes
trim_left_nul [] = []
trim_left_nul (c ∷ b) = if c == 0 then trim_left_nul b else c ∷ b

unfoldable pub trim_right_nul : Bytes → Bytes
trim_right_nul [] = []
trim_right_nul (c ∷ b) = elim (trim_right_nul b) [
  | [] ↦ (if c == 0 then [] else c ∷ [])
  | x ∷ r ↦ c ∷ x ∷ r
]

-- `strings.Trim(str, "\x00")`
unfoldable pub trim_nul : Bytes → Bytes
unfolding trim_left_nul trim_right_nul
trim_nul b = trim_right_nul (trim_left_nul b)

unfoldable pub read_string : M (Bytes × Option IoError)
read_string m =
    let (str, err, rest) = read_until_nul m.buffer in
    ok ((trim_nul str, err), record { buffer = rest })

-- `buffer.Write`: the count is the number of bytes, and the error is always nil.
unfoldable pub write_bytes : Bytes → M (ℕ × Option IoError)
write_bytes value m = ok ((length value, none), record { buffer = m.buffer ++ value })

unfoldable pub write_byte : ℕ → M (Option IoError)
write_byte value m = ok (none, record { buffer = m.buffer ++ value ∷ [] })

unfoldable pub write_int16 : ℕ → M (ℕ × Option IoError)
unfolding write_bytes
write_int16 value = write_bytes (be16 value)

unfoldable pub write_int32 : ℕ → M (ℕ × Option IoError)
unfolding write_bytes
write_int32 value = write_bytes (be32 value)

unfoldable pub write_string : Bytes → M (ℕ × Option IoError)
unfolding write_bytes
write_string value = write_bytes (value ++ 0 ∷ [])

-- `Bytes()`
unfoldable pub get_bytes : M Bytes
get_bytes m = ok (m.buffer, m)

abbrev set_bytes : Bytes → M (Unit {0})
set_bytes b _ = ok (tt, record { buffer = b })

-- The slice `s` shares the buffer's bytes, so that writing into it changes the buffer from
-- `offset` on. `PutUint32` panics on fewer than four bytes, `b[offset:]` beyond the end.
unfoldable pub reset_length : ℕ → M (Unit {0})
unfolding get_bytes
reset_length offset = do
  b ← get_bytes
  s ← lift (slice_from b offset)
  s' ← lift (put_uint32 s (length s % 2 ^ 32))
  set_bytes (take offset b ++ s')

unfoldable pub reset : M (Unit {0})
reset m = ok (tt, record { buffer = [] })

-- `buffer.Next(pos)` skips what there is, up to `pos` bytes.
unfoldable pub seek : ℕ → M (Unit {0})
seek pos m = ok (tt, record { buffer = drop pos m.buffer })
