-- ===== src/Proxy/Ownership/Sorted.antt =====
-- The pools of the masters are always in the one channel, and the others in the other.
use crunchy_proxy.Go.Channels.{Channel, send, receive, receive-items, send-items}
use crunchy_proxy.Go.{ok, >>=-eq-ok, ok-injective}
use crunchy_proxy.Prelude.{
  ℕ, ◌≡◌, sym, subst, Bool, true, false, not, List, [], ◌∷◌, Option, none, some, arith, All,
  All-append,
}
use crunchy_proxy.Proxy.Handler.{Handler, give_up_backend}
use crunchy_proxy.Proxy.Routing.Moves.{return_backend-Gives}
use crunchy_proxy.Proxy.Routing.{Proxy, get_pool, return_pool, return_backend}

-- `is_master k` says whether pool `k` belongs to the master.
module _ (is_master : ℕ → Bool) where
  abbrev pub AreAll : Bool → List ℕ → Type 0
  AreAll b = All (λ k. is_master k ≡ b)

  -- The masters' pools are in the one channel, the others in the other.
  abbrev pub IsSorted : Proxy → Type 0
  IsSorted p = AreAll true p.write_pools.items × AreAll false p.read_pools.items

  receive-AreAll :
      (b : Bool) (ch : Channel ℕ) {r : ℕ × Channel ℕ}
      → AreAll b ch.items
      → receive ch ≡ ok r
      → (is_master r.0 ≡ b) × AreAll b r.1.items
  receive-AreAll b ch a h = rw (receive-items ch h) at a

  send-AreAll :
      (b : Bool) (ch : Channel ℕ) (k : ℕ) {ch' : Channel ℕ}
      → AreAll b ch.items
      → is_master k ≡ b
      → send ch k ≡ ok ch'
      → AreAll b ch'.items
  send-AreAll b ch k a m h =
      rw (send-items ch k h) (All-append (λ k. is_master k ≡ b) ch.items (k ∷ []) a (m, tt))

  pub get_pool-IsSorted :
      (read : Bool) (p : Proxy) {r : ℕ × Proxy}
      → IsSorted p
      → get_pool read p ≡ ok r
      → (is_master r.0 ≡ not read) × IsSorted r.1
  unfolding get_pool
  get_pool-IsSorted true p s e =
      let (q, received, done) =
        >>=-eq-ok (receive p.read_pools) (λ r. ok (r.0, record p { read_pools = r.1 })) e in
      let (m, rest) = receive-AreAll false p.read_pools s.1 received in
      subst (λ r. (is_master r.0 ≡ false) × IsSorted r.1) (ok-injective done) (m, (s.0, rest))
  get_pool-IsSorted false p s e =
      let (q, received, done) =
        >>=-eq-ok (receive p.write_pools) (λ r. ok (r.0, record p { write_pools = r.1 })) e in
      let (m, rest) = receive-AreAll true p.write_pools s.0 received in
      subst (λ r. (is_master r.0 ≡ true) × IsSorted r.1) (ok-injective done) (m, (rest, s.1))

  pub return_pool-IsSorted :
      (cp : ℕ) (read : Bool) (p : Proxy) {p' : Proxy}
      → IsSorted p
      → is_master cp ≡ not read
      → return_pool cp read p ≡ ok p'
      → IsSorted p'
  unfolding return_pool
  return_pool-IsSorted cp true p s m e =
      let (q, sent, done) =
        >>=-eq-ok (send p.read_pools cp) (λ r. ok (record p { read_pools = r })) e in
      subst IsSorted (ok-injective done) (s.0, send-AreAll false p.read_pools cp s.1 m sent)
  return_pool-IsSorted cp false p s m e =
      let (q, sent, done) =
        >>=-eq-ok (send p.write_pools cp) (λ r. ok (record p { write_pools = r })) e in
      subst IsSorted (ok-injective done) (send-AreAll true p.write_pools cp s.0 m sent, s.1)

  pub give_up_backend-IsSorted :
      (h : Handler) (p : Proxy) (o b : Option ℕ) {p' : Proxy}
      → h.cp ≡ o
      → h.backend ≡ b
      → IsSorted p
      → give_up_backend h p ≡ ok p'
      → IsSorted p'
  unfolding give_up_backend
  give_up_backend-IsSorted h p none b c d s e = ground arith
  give_up_backend-IsSorted h p (some k) none c d s e = ground arith
  give_up_backend-IsSorted h p (some k) (some n) c d s e =
      let first : return_backend k n p ≡ ok _ = rw (c, d, give_up_backend) at e in
      subst IsSorted (sym (return_backend-Gives k n p first).result) s
