-- ===== src/Cli/Listing.antt =====
-- A listing of the health of the nodes can be read back.
use crunchy_proxy.Cli.Command.{format_plain}
use crunchy_proxy.Config.{StringMap}
use crunchy_proxy.Go.Decimal.{show_bool}
use crunchy_proxy.Go.Strings.{split, strip_prefix}
use crunchy_proxy.Go.{Bytes, codes, equal}
use crunchy_proxy.Prelude.{
  ℕ, suc, ◌≡◌, ◌≢◌, refl, ap, ◌∙◌, Bool, true, false, List, [], ◌∷◌, ◌++◌, Option, none, some,
  arith, All, All-append, ==_false, length, length-append, if◌then◌else◌, append_assoc,
}

-- The name and the state of a line behind its `* `: the line ends by `: true` or `: false`.
abbrev with_first : ℕ → Option (Bytes × Bool) → Option (Bytes × Bool)
with_first c none = none
with_first c (some e) = some (c ∷ e.0, e.1)

unfoldable pub read_state : Bytes → Option (Bytes × Bool)
read_state [] = none
read_state (c ∷ s) =
    if equal (c ∷ s) (codes ": true")
    then some ([], true)
    else if equal (c ∷ s) (codes ": false")
    then some ([], false)
    else with_first c (read_state s)

unfoldable pub read_line : Bytes → Option (Bytes × Bool)
unfolding read_state strip_prefix
read_line line = elim (strip_prefix (codes "* ") line) [ none ↦ none | some rest ↦ read_state rest ]

abbrev before : Option (Bytes × Bool) → Option (StringMap Bool) → Option (StringMap Bool)
before none rest = none
before (some e) none = none
before (some e) (some rest) = some (e ∷ rest)

-- Every line but the last, which is empty, is an entry.
unfoldable pub read_lines : List Bytes → Option (StringMap Bool)
unfolding read_line
read_lines [] = none
read_lines (line ∷ []) = if equal line [] then some [] else none
read_lines (line ∷ line' ∷ lines) = before (read_line line) (read_lines (line' ∷ lines))

-- Reads a listing.
unfoldable pub read_listing : Bytes → Option (StringMap Bool)
unfolding read_lines split
read_listing text = read_lines (split 10 text)

-- no newline
abbrev pub IsOneLine : Bytes → Type 0
IsOneLine = All (λ (c : ℕ). c ≢ 10)

split-ne-nil : (s : Bytes) → split 10 s ≢ []
unfolding split
split-ne-nil [] e = cc
split-ne-nil (c ∷ s) e = ground (arith, split-ne-nil s)

split-line :
    (line rest : Bytes) → IsOneLine line → split 10 (line ++ 10 ∷ rest) ≡ line ∷ split 10 rest
unfolding split
split-line [] rest h = refl
split-line (c ∷ line) rest h = rw (==_false c 10 h.0, split) (rw (split-line line rest h.1) refl)

equal-length : (s t : Bytes) → length s ≢ length t → equal s t ≡ false
unfolding equal
equal-length [] [] h = absurd (h refl)
equal-length [] (y ∷ t) h = refl
equal-length (x ∷ s) [] h = refl
equal-length (x ∷ s) (y ∷ t) h = ground (arith, equal-length s t (λ e. h (ap suc e)))

one_letter : (c : ℕ) → equal (c ∷ codes ": true") (codes ": false") ≡ false
unfolding equal
one_letter c = ground arith

read_state-next :
    (c : ℕ) (s : Bytes)
    → equal (c ∷ s) (codes ": true") ≡ false
    → equal (c ∷ s) (codes ": false") ≡ false
    → read_state (c ∷ s) ≡ with_first c (read_state s)
unfolding read_state
read_state-next c s t f = rw (t, f) refl

read_state-line :
    (name : Bytes) (b : Bool) → read_state (name ++ (codes ": " ++ show_bool b)) ≡ some (name, b)
unfolding show_bool
read_state-line [] true = unfold read_state equal in refl
read_state-line [] false = unfold read_state equal in refl
read_state-line (c ∷ []) true =
    read_state-next c (codes ": true")
      (equal-length (c ∷ codes ": true") (codes ": true") (omega arith)) (one_letter c)
    ∙ ap (with_first c) (read_state-line [] true)
read_state-line (c ∷ d ∷ name) true =
    read_state-next c (d ∷ name ++ codes ": true")
      (equal-length _ _ (λ e. absurd (omega (arith, length-append {0} name (codes ": true")))))
      (equal-length _ _ (λ e. absurd (omega (arith, length-append {0} name (codes ": true")))))
    ∙ ap (with_first c) (read_state-line (d ∷ name) true)
read_state-line (c ∷ name) false =
    read_state-next c (name ++ codes ": false")
      (equal-length _ _ (λ e. absurd (omega (arith, length-append {0} name (codes ": false")))))
      (equal-length _ _ (λ e. absurd (omega (arith, length-append {0} name (codes ": false")))))
    ∙ ap (with_first c) (read_state-line name false)

abbrev line_of : Bytes → Bool → Bytes
line_of name b = codes "* " ++ (name ++ (codes ": " ++ show_bool b))

read_line-line_of : (name : Bytes) (b : Bool) → read_line (line_of name b) ≡ some (name, b)
unfolding read_line strip_prefix
read_line-line_of name b = read_state-line name b

IsOneLine-line_of : (name : Bytes) (b : Bool) → IsOneLine name → IsOneLine (line_of name b)
unfolding show_bool
IsOneLine-line_of name true h =
    ((λ e. cc), ((λ e. cc), All-append (λ (c : ℕ). c ≢ 10) name (codes ": true") h (omega arith)))
IsOneLine-line_of name false h =
    ((λ e. cc), ((λ e. cc), All-append (λ (c : ℕ). c ≢ 10) name (codes ": false") h (omega arith)))

read_lines-cons :
    (line : Bytes) (lines : List Bytes)
    → lines ≢ []
    → read_lines (line ∷ lines) ≡ before (read_line line) (read_lines lines)
unfolding read_lines
read_lines-cons line [] h = absurd (h refl)
read_lines-cons line (line' ∷ lines) h = refl

format_plain-cons :
    (name : Bytes) (b : Bool) (hc : StringMap Bool)
    → format_plain ((name, b) ∷ hc) ≡ line_of name b ++ 10 ∷ format_plain hc
unfolding format_plain
format_plain-cons name b hc = simp append_assoc

-- A listing of nodes whose names hold no newline is read back as what was listed: the same names, in
-- order, each with its state, whatever else the names hold.
pub read_listing-format_plain :
    (hc : StringMap Bool)
    → All (λ (p : Bytes × Bool). IsOneLine p.0) hc
    → read_listing (format_plain hc) ≡ some hc
unfolding read_listing
read_listing-format_plain [] h = unfold format_plain read_lines split equal in refl
read_listing-format_plain ((name, b) ∷ hc) h =
    ap (λ t. read_lines (split 10 t)) (format_plain-cons name b hc)
    ∙ ap read_lines (split-line (line_of name b) (format_plain hc) (IsOneLine-line_of name b h.0))
    ∙ read_lines-cons (line_of name b) (split 10 (format_plain hc)) (split-ne-nil (format_plain hc))
    ∙ ap (λ e. before e (read_lines (split 10 (format_plain hc)))) (read_line-line_of name b)
    ∙ ap (before (some (name, b))) (read_listing-format_plain hc h.1)
