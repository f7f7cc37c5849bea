-- ===== src/Tests/Arrivals.antt =====
-- A client that comes, logs in and sends a query, on a proxy as it is set up.
use crunchy_proxy.Connect.Buffers.{AreBytes, length-fill}
use crunchy_proxy.Connect.Dial.{connected}
use crunchy_proxy.Connect.Login.Relay.{told, authenticate_client-accepted}
use crunchy_proxy.Connect.Login.{authenticate_client}
use crunchy_proxy.Connect.Validate.Startup.{validate_client-startup_frame}
use crunchy_proxy.Connect.Validate.{validate_client}
use crunchy_proxy.Connect.{Conn, buffer_size, receive, received}
use crunchy_proxy.Go.BigEndian.{be32, uint32}
use crunchy_proxy.Go.{Bytes, ok, ◌>>=◌, codes, equal, slice}
use crunchy_proxy.Prelude.{
  ℕ, zero, suc, ◌+◌, ◌≡◌, refl, ap, ◌∙◌, subst, true, none, some, inl, inr, List, [], ◌∷◌, ◌++◌,
  length, arith, replicate, get_elem?,
}
use crunchy_proxy.Protocol.Frame.Layout.{startup_frame}
use crunchy_proxy.Protocol.Frame.{get_version, protocol_version, get_terminate_message}
use crunchy_proxy.Protocol.Message.{fill}
use crunchy_proxy.Protocol.Startup.Layout.{strings, startup_params}
use crunchy_proxy.Proxy.Admission.{
  admitted, admit, on_startup, validate_and_login, validated, after_login,
}
use crunchy_proxy.Proxy.Annotation.{no_annotations}
use crunchy_proxy.Proxy.Clients.Safe.{IsOfBytes, IsLoggedIn, clients_served}
use crunchy_proxy.Proxy.Clients.{Visit, ClientsRun, none_yet, joins, acts}
use crunchy_proxy.Proxy.Handler.{new_handler, query, next_connection, give_pool_back}
use crunchy_proxy.Proxy.Ownership.Safety.{IsUsing, counts_connection}
use crunchy_proxy.Proxy.Ownership.Weights.{pools_weight}
use crunchy_proxy.Proxy.Setup.Ready
use crunchy_proxy.Tests.Connect.{creds, quiet, tls}
use crunchy_proxy.Tests.Sessions.{
  proxy, fetching, fetched, started_state, serving_state, first_step, second_step, third_step,
  set_up, busy-IsUsing,
}
use crunchy_proxy.Tests.Login.{
  env, env-AllConnect, master_node, accepting, asking, says_ok-accepting, asking-goes_on, willing,
}

fill_rest : (b : Bytes) (n m : ℕ) → m ≡ length b + n → fill m b ≡ b ++ replicate n 0
unfolding fill
fill_rest [] zero zero e = refl
fill_rest [] zero (suc m) e = ground arith
fill_rest [] (suc n) zero e = ground arith
fill_rest [] (suc n) (suc m) e = ap (◌∷◌ 0) (fill_rest [] n m (omega (arith, e)))
fill_rest (x ∷ b) n zero e = ground arith
fill_rest (x ∷ b) n (suc m) e = ap (◌∷◌ x) (fill_rest b n m (omega (arith, e)))

-- A startup message of user `u` and database `d`.
abbrev startup : Bytes
startup =
    startup_frame
      (be32 protocol_version ++ (strings (startup_params (codes "u") (codes "d") []) ++ 0 ∷ []))

abbrev arriving : Conn
arriving = record quiet { reads = (startup, none) ∷ (codes "pw", none) ∷ [] }

startup-length : length startup ≡ 27
unfolding be32
startup-length = refl

startup_valid : validate_client creds (fill buffer_size startup) ≡ ok true
unfolding equal
startup_valid =
    ap (validate_client creds) (fill_rest startup 4069 buffer_size (omega (arith, startup-length)))
    ∙ validate_client-startup_frame creds (codes "u") (codes "d") [] 4069 (omega arith)
        (omega arith) tt

abbrev let_in : Conn
let_in = record (told quiet (asking ∷ accepting ∷ [])) { reads = [] }

startup_logs_in :
    validate_and_login creds (ok (connected willing)) (receive arriving).1 (receive arriving).0
    ≡ ok (admitted let_in)
unfolding validate_and_login validated receive received after_login authenticate_client
    crunchy_proxy.Go.slice_to fill crunchy_proxy.Protocol.Frame.is_authentication_ok
    crunchy_proxy.Go.index slice uint32 be32
startup_logs_in =
    ap (λ o. o >>= validated (ok (connected willing)) (receive arriving).1 (receive arriving).0)
      startup_valid
    ∙ ap (λ o. o >>= after_login)
        (authenticate_client-accepted quiet quiet (fill buffer_size startup) 27
          (omega (arith, length-fill buffer_size startup)) ((asking, codes "pw") ∷ []) accepting []
          ((omega arith, omega arith, omega arith, asking-goes_on), tt) (omega arith) (omega arith)
          says_ok-accepting)

arrives : admit tls creds (ok (connected willing)) arriving ≡ ok (admitted let_in)
unfolding admit on_startup receive received get_version slice uint32 fill be32
arrives = startup_logs_in

abbrev visit : Visit
visit = record { client = arriving; dialed = ok (connected willing) }

abbrev both : List Visit
both = visit ∷ visit ∷ []

both_came : ClientsRun tls creds (Ready.started (proxy (0 ∷ []) (0 ∷ [])) 0) both started_state
both_came = joins visit (joins visit none_yet arrives) arrives

both_run : ClientsRun tls creds (Ready.started (proxy (0 ∷ []) (0 ∷ [])) 0) both serving_state
both_run =
    acts {i = 0} {a = give_pool_back}
      (acts {i = 0} {a = next_connection}
        (acts {i = 0} {a = query no_annotations} both_came (record {
          handler = new_handler;
          found = refl;
          in_order = inr (inl refl);
          steps = first_step;
        }))
        (record { handler = fetching; found = refl; in_order = tt; steps = second_step }))
      (record { handler = fetched; found = refl; in_order = tt; steps = third_step })

visit-IsOfBytes : IsOfBytes visit
unfolding be32
visit-IsOfBytes = (
  omega arith,
  (λ m e. subst (λ (m : Conn). AreBytes m.reads) (connected-injective e) (omega arith)),
)
  where
    connected-injective : {a b : Conn} → ok (connected a) ≡ ok (connected b) → a ≡ b
    connected-injective e = cc

clients_served_example :
    ((v : Visit) × (get_elem? both 0 ≡ some v) × IsLoggedIn tls creds (λ c h. h) v)
    × ((j : ℕ) → IsUsing serving_state j 0 → j ≡ 0)
    × (pools_weight (counts_connection 0) serving_state.proxy.pools ≡ 0)
clients_served_example =
    clients_served tls env (λ c h. h) 1 ((codes "m", master_node) ∷ []) {opened = 1}
      {p = proxy (0 ∷ []) (0 ∷ [])} {vs = both} {t = serving_state} 0 0 env-AllConnect set_up
      (visit-IsOfBytes, (visit-IsOfBytes, tt)) both_run busy-IsUsing
