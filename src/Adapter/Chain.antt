-- ===== src/Adapter/Chain.antt =====
-- A chain of audits.
use crunchy_proxy.Adapter.{
  Audited, Adapter, Decorator, decorate, Metadata, Host, get_string, path_of, create_file,
  audit_line, write_line, or_create, audit,
}
use crunchy_proxy.Go.{Bytes, ok, ◌>>=◌, codes}
use crunchy_proxy.Prelude.{
  ℕ, zero, suc, ◌+◌, ◌≡◌, refl, ap, ◌∙◌, false, List, [], ◌∷◌, ◌++◌, append_assoc, append-nil, map,
  none, some, length, arith,
}

-- The decorator that comes last is outermost.
decorate-last :
    (c : Adapter) (ds : List Decorator) (d : Decorator)
    → decorate c (ds ++ d ∷ []) ≡ d (decorate c ds)
unfolding decorate
decorate-last c [] d = refl
decorate-last c (e ∷ ds) d = decorate-last (e c) ds d

module _ (host : Host) (i : ℕ) where
  -- The state after `n` audits with an open file: one line each, by the readings of the clock.
  abbrev pub lines : Bytes → ℕ → ℕ → List (Bytes × Bytes)
  lines path k zero = []
  lines path k (suc n) = (path, audit_line (host.now k) i) ∷ lines path (suc k) n

  abbrev pub audited : Bytes → ℕ → Audited → Audited
  audited path n s = record {
    file = some path;
    written = s.written ++ lines path s.clock n;
    clock = s.clock + n;
  }

  -- One more line, behind `n` lines.
  lines-append :
      (path : Bytes) (k n : ℕ)
      → lines path k (suc n) ≡ lines path k n ++ (path, audit_line (host.now (k + n)) i) ∷ []
  lines-append path k zero = ap (λ j. (path, audit_line (host.now j) i) ∷ []) (omega arith)
  lines-append path k (suc n) =
      ap (λ ls. (path, audit_line (host.now k) i) ∷ ls)
        (lines-append path (suc k) n
          ∙ ap (λ j. lines path (suc k) n ++ (path, audit_line (host.now j) i) ∷ []) (omega arith))

  or_create-open :
      (metadata : Metadata) (path : Bytes) (s : Audited)
      → s.file ≡ some path
      → or_create host metadata s ≡ ok s
  or_create-open metadata path s f = ground arith

  write_line-open :
      (line path : Bytes) (s : Audited)
      → s.file ≡ some path
      → write_line line s ≡ record s { file = some path; written = s.written ++ (path, line) ∷ [] }
  write_line-open line path s f = ground arith

  ticked :
      (path : Bytes) (s : Audited)
      → record s {
        file = some path;
        written = s.written ++ (path, audit_line (host.now s.clock) i) ∷ [];
        clock = suc s.clock;
      }
        ≡ audited path 1 s
  ticked path s = ground arith

  audit_open :
      (metadata : Metadata) (c : Adapter) (r : Bytes) (path : Bytes) (s : Audited)
      → s.file ≡ some path
      → audit host metadata c r i s ≡ c r i (audited path 1 s)
  unfolding audit
  audit_open metadata c r path s f =
      let line = audit_line (host.now s.clock) i in
      let s' : Audited = record s { clock = suc s.clock } in
      ap (λ o. o >>= λ s. c r i (write_line line s)) (or_create-open metadata path s' f)
      ∙ ap (c r i) (write_line-open line path s' f ∙ ticked path s)

  audited-audited :
      (path : Bytes) (n : ℕ) (s : Audited)
      → audited path 1 (audited path n s) ≡ audited path (suc n) s
  audited-audited path n s = ground (
    arith,
    append_assoc s.written (lines path s.clock n)
        ((path, audit_line (host.now (s.clock + n)) i) ∷ []),
    lines-append path s.clock n,
  )

  audited-behind :
      (path : Bytes) (n : ℕ) (s : Audited)
      → audited path n (audited path 1 s) ≡ audited path (suc n) s
  audited-behind path n s =
      ground (arith, append_assoc s.written (lines path s.clock 1) (lines path (s.clock + 1) n))

  -- The audits of metadata `ms`, in the order in which they decorate.
  abbrev pub audits : List Metadata → List Decorator
  audits ms = map (audit host) ms

  audits_open :
      (ms : List Metadata) (c : Adapter) (r : Bytes) (path : Bytes) (s : Audited)
      → s.file ≡ some path
      → decorate c (audits ms) r i s ≡ c r i (audited path (length ms) s)
  unfolding decorate
  audits_open [] c r path s f = ap (c r i) (same path s f)
    where
      same : (path : Bytes) (s : Audited) → s.file ≡ some path → s ≡ audited path 0 s
      same path s f = ground (arith, append-nil s.written)
  audits_open (m ∷ ms) c r path s f =
      audits_open ms (audit host m c) r path s f
      ∙ audit_open m c r path (audited path (length ms) s) refl
      ∙ ap (c r i) (audited-audited path (length ms) s)

  -- The audit that finds no file opens the one of its own metadata.
  audit_first :
      (metadata : Metadata) (c : Adapter) (r : Bytes) (path : Bytes) (s : Audited)
      → s.file ≡ none
      → get_string (codes "filepath") metadata ≡ ok path
      → host.open_fails (path_of path) ≡ false
      → audit host metadata c r i s ≡ c r i (audited (path_of path) 1 s)
  unfolding audit create_file
  audit_first metadata c r path s f g o =
      let line = audit_line (host.now s.clock) i in
      let s' : Audited = record s { clock = suc s.clock } in
      let s'' : Audited = record s' { file = some (path_of path) } in
      ap (λ q. q >>= λ s. c r i (write_line line s)) (created s' f)
      ∙ ap (c r i) (write_line-open line (path_of path) s'' refl ∙ ticked (path_of path) s)
    where
      created :
          (s : Audited)
          → s.file ≡ none
          → or_create host metadata s ≡ ok (record s { file = some (path_of path) })
      created s f = ground arith

  -- While no file is open, a message that passes a chain of audits is written by all of them, each with
  -- the reading of the clock at its turn, into the one file that the audit which was added last names:
  -- the paths of the others are not looked at. Then the decorated adapter gets the message.
  pub audits_share_file :
      (ms : List Metadata) (m : Metadata) (c : Adapter) (r : Bytes) (path : Bytes) (s : Audited)
      → s.file ≡ none
      → get_string (codes "filepath") m ≡ ok path
      → host.open_fails (path_of path) ≡ false
      → decorate c (audits ms ++ audit host m ∷ []) r i s
        ≡ c r i (audited (path_of path) (suc (length ms)) s)
  audits_share_file ms m c r path s f g o =
      ap (λ d. d r i s) (decorate-last c (audits ms) (audit host m))
      ∙ audit_first m (decorate c (audits ms)) r path s f g o
      ∙ audits_open ms c r (path_of path) (audited (path_of path) 1 s) refl
      ∙ ap (c r i) (audited-behind (path_of path) (length ms) s)
