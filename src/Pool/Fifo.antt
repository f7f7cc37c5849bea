-- ===== src/Pool/Fifo.antt =====
-- A pool hands its connections out in the order in which they came back, and never holds more than
-- its capacity.
use crunchy_proxy.Go.Channels.{send, receive}
use crunchy_proxy.Go.{ok}
use crunchy_proxy.Pool.{Pool, next, give_back}
use crunchy_proxy.Prelude.{ℕ, ◌<◌, ◌≡◌, refl, List, [], ◌∷◌, ◌++◌, arith, length, lt→ltb}

pub record Taken (p : Pool) (backend : ℕ) (p' : Pool) : Type 0 where
  pub items : p.connections.items ≡ backend ∷ p'.connections.items
  pub cap : p'.connections.cap ≡ p.connections.cap
  pub name : p'.name ≡ p.name

pub record Given (p : Pool) (backend : ℕ) (p' : Pool) : Type 0 where
  pub items : p'.connections.items ≡ p.connections.items ++ backend ∷ []
  pub cap : p'.connections.cap ≡ p.connections.cap
  pub name : p'.name ≡ p.name

receive-Taken :
    (xs : List ℕ) (p : Pool) {backend : ℕ} {p' : Pool}
    → p.connections.items ≡ xs
    → next p ≡ ok (backend, p')
    → Taken p backend p'
unfolding next receive
receive-Taken [] p e h = ground arith
receive-Taken (x ∷ xs) p e h = ground arith

pub next-Taken :
    {p : Pool} {backend : ℕ} {p' : Pool} → next p ≡ ok (backend, p') → Taken p backend p'
next-Taken {p} h = receive-Taken p.connections.items p refl h

pub give_back-Given :
    {p : Pool} {backend : ℕ} {p' : Pool} → give_back p backend ≡ ok p' → Given p backend p'
unfolding give_back send
give_back-Given h = ground arith

-- A pool that is not full takes a connection.
pub give_back_total :
    (p : Pool) (backend : ℕ)
    → length p.connections.items < p.connections.cap
    → (p' : Pool) × (give_back p backend ≡ ok p')
unfolding give_back send
give_back_total p backend h = (
  record p { connections = record p.connections { items = p.connections.items ++ backend ∷ [] } },
  rw (lt→ltb _ _ h, give_back),
)
