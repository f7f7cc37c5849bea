-- ===== src/Connect/Login/Accepted.antt =====
-- Which reads of the master the proxy takes for an AuthenticationOk message.
use crunchy_proxy.Connect.Buffers.{says_ok, ok_message}
use crunchy_proxy.Connect.{buffer_size}
use crunchy_proxy.Go.BigEndian.{be32}
use crunchy_proxy.Go.{Bytes, IoError, equal_iff}
use crunchy_proxy.Prelude.{◌≡◌, ◌⊎◌, true, List, [], ◌∷◌, Option, take, All}
use crunchy_proxy.Protocol.Message.{fill}

-- The type and the length of an AuthenticationOk message, and zeros where its code stands, as far as
-- the read went.
abbrev pub IsAccepted : Bytes → Type 0
IsAccepted chunk =
    (rest : Bytes) × (chunk ≡ b'R' ∷ 0 ∷ 0 ∷ 0 ∷ 8 ∷ rest) × All (λ x. x ≡ 0) (take 4 rest)

-- One of the reads is accepted.
abbrev pub HasAccepted : List (Bytes × Option IoError) → Type 0
HasAccepted [] = ⊥
HasAccepted (chunk ∷ reads) = IsAccepted chunk.0 ⊎ HasAccepted reads

starts : (chunk : Bytes) → says_ok chunk ≡ true → take 9 (fill buffer_size chunk) ≡ ok_message
starts chunk e = (equal_iff (take 9 (fill buffer_size chunk)) ok_message).0 e

shaped : (chunk : Bytes) → take 9 (fill buffer_size chunk) ≡ ok_message → IsAccepted chunk
unfolding fill be32
shaped [] e = cc
shaped (a ∷ []) e = cc
shaped (a ∷ b ∷ []) e = cc
shaped (a ∷ b ∷ c ∷ []) e = cc
shaped (a ∷ b ∷ c ∷ d ∷ []) e = cc
shaped (a ∷ b ∷ c ∷ d ∷ f ∷ []) e = ([], cc, tt)
shaped (a ∷ b ∷ c ∷ d ∷ f ∷ w ∷ []) e = (w ∷ [], cc, (cc, tt))
shaped (a ∷ b ∷ c ∷ d ∷ f ∷ w ∷ x ∷ []) e = (w ∷ x ∷ [], cc, (cc, (cc, tt)))
shaped (a ∷ b ∷ c ∷ d ∷ f ∷ w ∷ x ∷ y ∷ []) e = (w ∷ x ∷ y ∷ [], cc, (cc, (cc, (cc, tt))))
shaped (a ∷ b ∷ c ∷ d ∷ f ∷ w ∷ x ∷ y ∷ z ∷ rest) e =
    (w ∷ x ∷ y ∷ z ∷ rest, cc, (cc, (cc, (cc, (cc, tt)))))

pub says_ok-IsAccepted : (chunk : Bytes) → says_ok chunk ≡ true → IsAccepted chunk
says_ok-IsAccepted chunk e = shaped chunk (starts chunk e)
