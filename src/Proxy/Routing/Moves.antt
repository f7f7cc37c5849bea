-- ===== src/Proxy/Routing/Moves.antt =====
-- What `Next` and `Return` on a pool of the proxy, and `getPool` and `returnPool`, leave behind.
use crunchy_proxy.Go.Channels.{send, receive}
use crunchy_proxy.Go.{ok, ◌>>=◌, >>=-eq-ok}
use crunchy_proxy.Pool.Fifo.{Taken, Given, next-Taken, give_back-Given}
use crunchy_proxy.Pool.{Pool, next, give_back}
use crunchy_proxy.Prelude.{ℕ, ◌≡◌, ◌∙◌, Bool, some, arith, get_elem?, set}
use crunchy_proxy.Proxy.Routing.{
  Proxy, get_pool, return_pool, next_backend, return_backend, deref, store,
}

pub record Takes (cp : ℕ) (p : Proxy) (backend : ℕ) (p' : Proxy) : Type 0 where
  pub pool : Pool
  pub left : Pool
  pub found : get_elem? p.pools cp ≡ some pool
  pub taken : Taken pool backend left
  pub result : p' ≡ record p { pools = set p.pools cp left }

pub record Gives (cp backend : ℕ) (p p' : Proxy) : Type 0 where
  pub pool : Pool
  pub filled : Pool
  pub found : get_elem? p.pools cp ≡ some pool
  pub given : Given pool backend filled
  pub result : p' ≡ record p { pools = set p.pools cp filled }

deref-found :
    (cp : ℕ) (p : Proxy) {pool : Pool}
    → deref (some cp) p ≡ ok pool
    → get_elem? p.pools cp ≡ some pool
unfolding deref
deref-found cp p e = ground arith

pub next_backend-Takes :
    (cp : ℕ) (p : Proxy) {backend : ℕ} {p' : Proxy}
    → next_backend cp p ≡ ok (backend, p')
    → Takes cp p backend p'
unfolding next_backend
next_backend-Takes cp p e =
    let (pool, found, rest) =
      >>=-eq-ok (deref (some cp) p) (λ pool. next pool >>= λ r. ok (r.0, store cp r.1 p)) e in
    let (r, taken, done) = >>=-eq-ok (next pool) (λ r. ok (r.0, store cp r.1 p)) rest in
    record {
      pool = pool;
      left = r.1;
      found = deref-found cp p found;
      taken = next-Taken (taken ∙ ground arith);
      result = ground arith;
    }

pub return_backend-Gives :
    (cp backend : ℕ) (p : Proxy) {p' : Proxy}
    → return_backend cp backend p ≡ ok p'
    → Gives cp backend p p'
unfolding return_backend
return_backend-Gives cp backend p e =
    let (pool, found, rest) =
      >>=-eq-ok (deref (some cp) p) (λ pool. give_back pool backend >>= λ r. ok (store cp r p)) e in
    let (filled, given, done) = >>=-eq-ok (give_back pool backend) (λ r. ok (store cp r p)) rest in
    record {
      pool = pool;
      filled = filled;
      found = deref-found cp p found;
      given = give_back-Given given;
      result = ground arith;
    }

-- `getPool` and `returnPool` move no connection.
pub get_pool-pools :
    (read : Bool) (p : Proxy) {r : ℕ × Proxy} → get_pool read p ≡ ok r → r.1.pools ≡ p.pools
unfolding get_pool receive
get_pool-pools read p e = ground arith

pub return_pool-pools :
    (cp : ℕ) (read : Bool) (p : Proxy) {p' : Proxy}
    → return_pool cp read p ≡ ok p'
    → p'.pools ≡ p.pools
unfolding return_pool send
return_pool-pools cp read p e = ground arith
