-- ===== src/Go/Channels.antt =====
-- Buffered channels. A send on a full channel and a receive on an empty one wait: in a sequence of
-- steps that is the outcome `blocked`.
use crunchy_proxy.Go.Results.{Outcome, ok, blocked}
use crunchy_proxy.Prelude.{ℕ, ◌≡◌, refl, arith, List, [], ◌∷◌, ◌++◌, ltb, length, if◌then◌else◌}

pub record Channel {ℓ} (A : Type ℓ) : Type ℓ where
  pub items : List A
  pub cap : ℕ

module _ {ℓ} {A : Type ℓ} where
  -- `make(chan A, n)`
  abbrev pub make : ℕ → Channel A
  make n = record { items = []; cap = n }

  -- `ch <- a`
  unfoldable pub send : Channel A → A → Outcome (Channel A)
  send ch a =
      if ltb (length ch.items) ch.cap
      then ok (record ch { items = ch.items ++ a ∷ [] })
      else blocked

  -- `<-ch`
  unfoldable pub receive : Channel A → Outcome (A × Channel A)
  receive ch = elim ch.items [ [] ↦ blocked | a ∷ rest ↦ ok (a, record ch { items = rest }) ]

module _ {ℓ} {A : Type ℓ} where
  receive-items-of :
      (xs : List A) (ch : Channel A) {r : A × Channel A}
      → ch.items ≡ xs
      → receive ch ≡ ok r
      → ch.items ≡ r.0 ∷ r.1.items
  unfolding receive
  receive-items-of [] ch e h = ground arith
  receive-items-of (x ∷ xs) ch e h = ground arith

  pub receive-items :
      (ch : Channel A) {r : A × Channel A} → receive ch ≡ ok r → ch.items ≡ r.0 ∷ r.1.items
  receive-items ch h = receive-items-of ch.items ch refl h

  pub send-items :
      (ch : Channel A) (a : A) {ch' : Channel A}
      → send ch a ≡ ok ch'
      → ch'.items ≡ ch.items ++ a ∷ []
  unfolding send
  send-items ch a h = ground arith
