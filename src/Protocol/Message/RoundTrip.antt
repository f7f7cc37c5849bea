-- ===== src/Protocol/Message/RoundTrip.antt =====
-- Values of every kind, written one behind the other and read back.
use crunchy_proxy.Go.BigEndian.{be16, be32}
use crunchy_proxy.Go.{Bytes, HasNoNul, ok, IoError}
use crunchy_proxy.Prelude.{
  ℕ, ◌^◌, ◌<◌, ◌≡◌, refl, ap, ◌∙◌, List, [], ◌∷◌, ◌++◌, Option, none, append_assoc, append-nil,
}
use crunchy_proxy.Protocol.Message.Laws.{
  holding, read_int32-be32, read_int16-be16, read_string-append,
}
use crunchy_proxy.Protocol.Message.{
  M, and_then, ◌>>=◌, return, write_int32, write_int16, write_byte, write_string, read_int32,
  read_int16, read_byte, read_string,
}

-- A value that a message is made of.
pub data Item : Type 0 where
  int32 int16 byte : ℕ → Item
  text : Bytes → Item

-- The range of the value's Go type; a string holds no NUL.
abbrev pub IsItem : Item → Type 0
IsItem (int32 n) = n < 2 ^ 32
IsItem (int16 n) = n < 2 ^ 16
IsItem (byte n) = n < 256
IsItem (text s) = HasNoNul s

abbrev pub AreItems : List Item → Type 0
AreItems [] = Unit {0}
AreItems (x ∷ xs) = IsItem x × AreItems xs

abbrev write_item : Item → M (Unit {0})
write_item (int32 n) = write_int32 n >>= λ _. return tt
write_item (int16 n) = write_int16 n >>= λ _. return tt
write_item (byte n) = write_byte n >>= λ _. return tt
write_item (text s) = write_string s >>= λ _. return tt

abbrev pub write_items : List Item → M (Unit {0})
write_items [] = return tt
write_items (x ∷ xs) = write_item x >>= λ _. write_items xs

-- A value of the same kind as the given one, and the error of its read.
abbrev read_item : Item → M (Item × Option IoError)
read_item (int32 _) = read_int32 >>= λ r. return (int32 r.0, r.1)
read_item (int16 _) = read_int16 >>= λ r. return (int16 r.0, r.1)
read_item (byte _) = read_byte >>= λ r. return (byte r.0, r.1)
read_item (text _) = read_string >>= λ r. return (text r.0, r.1)

-- Reads values of the kinds of the given ones.
abbrev pub read_items : List Item → M (List (Item × Option IoError))
read_items [] = return []
read_items (x ∷ xs) = read_item x >>= λ r. read_items xs >>= λ rs. return (r ∷ rs)

abbrev bytes_of : Item → Bytes
bytes_of (int32 n) = be32 n
bytes_of (int16 n) = be16 n
bytes_of (byte n) = n ∷ []
bytes_of (text s) = s ++ 0 ∷ []

abbrev all_bytes : List Item → Bytes
all_bytes [] = []
all_bytes (x ∷ xs) = bytes_of x ++ all_bytes xs

-- Each value, without an error.
abbrev pub without_error : List Item → List (Item × Option IoError)
without_error [] = []
without_error (x ∷ xs) = (x, none) ∷ without_error xs

write_item-bytes_of :
    (x : Item) (b : Bytes) → write_item x (holding b) ≡ ok (tt, holding (b ++ bytes_of x))
unfolding write_int32 write_int16 write_byte write_string
write_item-bytes_of (int32 n) b = refl
write_item-bytes_of (int16 n) b = refl
write_item-bytes_of (byte n) b = refl
write_item-bytes_of (text s) b = refl

write_items-all_bytes :
    (xs : List Item) (b : Bytes) → write_items xs (holding b) ≡ ok (tt, holding (b ++ all_bytes xs))
write_items-all_bytes [] b = rw append-nil
write_items-all_bytes (x ∷ xs) b =
    ap (λ o. and_then o (λ _. write_items xs)) (write_item-bytes_of x b)
    ∙ write_items-all_bytes xs (b ++ bytes_of x)
    ∙ rw append_assoc

read_item-bytes_of :
    (x : Item) (rest : Bytes)
    → IsItem x
    → read_item x (holding (bytes_of x ++ rest)) ≡ ok ((x, none), holding rest)
unfolding read_byte
read_item-bytes_of (int32 n) rest h = rw (read_int32-be32 n rest h) refl
read_item-bytes_of (int16 n) rest h = rw (read_int16-be16 n rest h) refl
read_item-bytes_of (byte n) rest h = refl
read_item-bytes_of (text s) rest h =
    ap (λ b. read_item (text s) (holding b)) (append_assoc s (0 ∷ []) rest)
    ∙ rw (read_string-append s rest h) refl

read_items-all_bytes :
    (xs : List Item) (rest : Bytes)
    → AreItems xs
    → read_items xs (holding (all_bytes xs ++ rest)) ≡ ok (without_error xs, holding rest)
read_items-all_bytes [] rest h = refl
read_items-all_bytes (x ∷ xs) rest h =
    ap (λ b. read_items (x ∷ xs) (holding b)) (append_assoc (bytes_of x) (all_bytes xs) rest)
    ∙ ap (λ o. and_then o (λ r. read_items xs >>= λ rs. return (r ∷ rs)))
        (read_item-bytes_of x (all_bytes xs ++ rest) h.0)
    ∙ ap (λ o. and_then o (λ rs. return ((x, none) ∷ rs))) (read_items-all_bytes xs rest h.1)

-- Integers, bytes and strings that are written into an empty buffer, in any order and number, each in
-- the range of its type and the strings without NUL, are read back by the readers of their types: the
-- same values, in order, without an error, and nothing is left in the buffer.
pub read_items-write_items :
    (xs : List Item)
    → AreItems xs
    → (write_items xs >>= λ _. read_items xs) (holding []) ≡ ok (without_error xs, holding [])
read_items-write_items xs h =
    ap (λ o. and_then o (λ _. read_items xs)) (write_items-all_bytes xs [])
    ∙ ap (λ b. read_items xs (holding b)) (append-nil' (all_bytes xs))
    ∙ read_items-all_bytes xs [] h
  where
    append-nil' : (b : Bytes) → b ≡ b ++ []
    append-nil' b = rw append-nil
