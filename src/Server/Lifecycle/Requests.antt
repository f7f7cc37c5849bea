-- ===== src/Server/Lifecycle/Requests.antt =====
-- The requests to `Shutdown` of a server: one of them at most closes the channel.
use crunchy_proxy.Go.{ok}
use crunchy_proxy.Prelude.{
  ℕ, zero, suc, ◌+◌, ◌≤◌, ◌≡◌, ◌≢◌, sym, subst, Bool, true, false, some, arith, List, [], ◌∷◌, ◌++◌,
  All, All-set, All-get_elem?, get_elem?, set,
}
use crunchy_proxy.Server.Lifecycle.{
  Listener, closed, Stopping, close_listener, close_channel, stop_grpc, answered, Server, stop_step,
  put_request,
}
use crunchy_proxy.Server.Lifecycle.Count.{Inv, stop_step-Inv}

-- Has the request closed the channel, and has it stopped the service?
abbrev pub has_closed : Stopping → ℕ
has_closed stop_grpc = 1
has_closed answered = 1
has_closed _ = 0

abbrev pub has_stopped : Stopping → ℕ
has_stopped answered = 1
has_stopped _ = 0

abbrev pub how_many : (Stopping → ℕ) → List Stopping → ℕ
how_many w [] = 0
how_many w (r ∷ rs) = w r + how_many w rs

abbrev pub bit : Bool → ℕ
bit true = 1
bit false = 0

how_many-set :
    (w : Stopping → ℕ) (rs : List Stopping) (i : ℕ) (r q : Stopping)
    → get_elem? rs i ≡ some r
    → how_many w (set rs i q) + w r ≡ how_many w rs + w q
how_many-set w [] i r q e = cc
how_many-set w (r' ∷ rs) zero r q e = ground arith
how_many-set w (r' ∷ rs) (suc i) r q e = omega (arith, how_many-set w rs i r q e)

pub how_many-append :
    (w : Stopping → ℕ) (rs : List Stopping) (r : Stopping)
    → how_many w (rs ++ r ∷ []) ≡ how_many w rs + w r
how_many-append w [] r = omega arith
how_many-append w (r' ∷ rs) r = omega (arith, how_many-append w rs r)

-- A request that is past its first call has closed the listener.
abbrev pub Passed : Listener → Stopping → Type 0
Passed l r = r ≢ close_listener → l ≡ closed

pub record Safe (s : Server) : Type 0 where
  pub inv : Inv s
  pub passed : All (Passed s.listener) s.requests
  pub closers : how_many has_closed s.requests ≡ bit s.ch_closed
  pub stoppers : how_many has_stopped s.requests ≡ bit s.grpc_stopped

pub All-Passed :
    {l l' : Listener} (rs : List Stopping)
    → (l ≡ closed → l' ≡ closed)
    → All (Passed l) rs
    → All (Passed l') rs
All-Passed [] h a = tt
All-Passed (r ∷ rs) h a = ((λ n. h (a.0 n)), All-Passed rs h a.1)

has_stopped-le : (rs : List Stopping) → how_many has_stopped rs ≤ how_many has_closed rs
has_stopped-le [] = omega arith
has_stopped-le (r ∷ rs) = ground (arith, has_stopped-le rs)

-- Of the other requests no more have stopped the service than have closed the channel.
others_stopped :
    (rs : List Stopping) (i : ℕ) (r : Stopping)
    → get_elem? rs i ≡ some r
    → how_many has_stopped rs + has_closed r ≤ how_many has_closed rs + has_stopped r
others_stopped [] i r e = cc
others_stopped (answered ∷ rs) zero r e = ground (arith, has_stopped-le rs)
others_stopped (stop_grpc ∷ rs) zero r e = ground (arith, has_stopped-le rs)
others_stopped (close_channel ∷ rs) zero r e = ground (arith, has_stopped-le rs)
others_stopped (close_listener ∷ rs) zero r e = ground (arith, has_stopped-le rs)
others_stopped (r' ∷ rs) (suc i) r e = ground (arith, others_stopped rs i r e)

-- The flags behind one call of request `i`.
module _ (s : Server) (v : Safe s) (i : ℕ) where
  flags_closers :
      (r : Stopping) {q : Stopping × Server}
      → get_elem? s.requests i ≡ some r
      → stop_step r s ≡ ok q
      → how_many has_closed (set s.requests i q.0) ≡ bit q.1.ch_closed
  unfolding stop_step
  flags_closers close_listener {q} f e =
      ground (arith, how_many-set has_closed s.requests i close_listener q.0 f, v.closers)
  flags_closers close_channel {q} f e =
      ground (arith, how_many-set has_closed s.requests i close_channel q.0 f, v.closers)
  flags_closers stop_grpc {q} f e =
      ground (arith, how_many-set has_closed s.requests i stop_grpc q.0 f, v.closers)
  flags_closers answered {q} f e = cc

  flags_stoppers :
      (r : Stopping) {q : Stopping × Server}
      → get_elem? s.requests i ≡ some r
      → stop_step r s ≡ ok q
      → how_many has_stopped (set s.requests i q.0) ≡ bit q.1.grpc_stopped
  unfolding stop_step
  flags_stoppers close_listener {q} f e =
      ground (arith, how_many-set has_stopped s.requests i close_listener q.0 f, v.stoppers)
  flags_stoppers close_channel {q} f e =
      ground (arith, how_many-set has_stopped s.requests i close_channel q.0 f, v.stoppers)
  flags_stoppers stop_grpc {q} f e = ground (
    arith,
    how_many-set has_stopped s.requests i stop_grpc q.0 f,
    v.stoppers,
    v.closers,
    others_stopped s.requests i stop_grpc f,
  )
  flags_stoppers answered {q} f e = cc

same_requests :
    (r : Stopping) (s : Server) {q : Stopping × Server}
    → stop_step r s ≡ ok q
    → q.1.requests ≡ s.requests
unfolding stop_step
same_requests r s e = ground arith

stays_closed :
    (r : Stopping) (s : Server) {q : Stopping × Server}
    → stop_step r s ≡ ok q
    → s.listener ≡ closed
    → q.1.listener ≡ closed
unfolding stop_step
stays_closed r s e l = ground arith

stop_step-Passed :
    (r : Stopping) (s : Server) {q : Stopping × Server}
    → stop_step r s ≡ ok q
    → Passed s.listener r
    → Passed q.1.listener q.0
unfolding stop_step
stop_step-Passed close_listener s e l n = ground arith
stop_step-Passed close_channel s e l n = ground (arith, l (λ x. cc))
stop_step-Passed stop_grpc s e l n = ground (arith, l (λ x. cc))
stop_step-Passed answered s e l n = cc

put_request-Inv : (i : ℕ) (q : Stopping × Server) → Inv q.1 → Inv (put_request i q)
put_request-Inv i q v = ground arith

pub stop_step-Safe :
    (i : ℕ) (r : Stopping) (s : Server) (q : Stopping × Server)
    → get_elem? s.requests i ≡ some r
    → stop_step r s ≡ ok q
    → Safe s
    → Safe (put_request i q)
stop_step-Safe i r s q f e v =
    let p = All-get_elem? (Passed s.listener) s.requests i v.passed f in
    let rs = same_requests r s e in
    record {
      inv = put_request-Inv i q (stop_step-Inv r s p v.inv e);
      passed =
          subst (λ rs. All (Passed q.1.listener) (set rs i q.0)) (sym rs)
            (All-set (Passed q.1.listener) s.requests i q.0
              (All-Passed s.requests (stays_closed r s e) v.passed) (stop_step-Passed r s e p));
      closers = rw rs (flags_closers s v i r f e);
      stoppers = rw rs (flags_stoppers s v i r f e);
    }
