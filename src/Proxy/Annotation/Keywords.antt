-- ===== src/Proxy/Annotation/Keywords.antt =====
-- Which annotations the keywords of a comment set.
use crunchy_proxy.Go.Strings.{trim_space}
use crunchy_proxy.Go.{Bytes, codes, equal, equal_iff}
use crunchy_proxy.Prelude.{
  ◌≡◌, refl, sym, ◌∙◌, ◌↔◌, ◌⊎◌, inl, inr, Bool, true, ◌||◌, List, [], ◌∷◌, arith,
}
use crunchy_proxy.Proxy.Annotation.{
  AnnotationType, read_annotation, start_annotation, end_annotation, annotation_string, Annotations,
  get, annotate, annotate_all,
}

-- One of the keywords is `word`, with white space round it or not.
pub data Mentions (word : Bytes) : List Bytes → Type 0 where
  here : {k : Bytes} {ks : List Bytes} → trim_space k ≡ word → Mentions word (k ∷ ks)
  there : {k : Bytes} {ks : List Bytes} → Mentions word ks → Mentions word (k ∷ ks)

Mentions-cons :
    {word k : Bytes} {ks : List Bytes}
    → Mentions word (k ∷ ks)
    → (trim_space k ≡ word) ⊎ Mentions word ks
Mentions-cons (here e) = inl e
Mentions-cons (there m) = inr m

get-annotate :
    (k : Bytes) (a : Annotations) (t : AnnotationType)
    → get (annotate k a) t ≡ (equal k (annotation_string t) || get a t)
unfolding annotate annotation_string
get-annotate k a read_annotation = ground arith
get-annotate k a start_annotation =
    ground (arith, equal_iff k (codes "read"), equal_iff k (codes "start"))
get-annotate k a end_annotation =
    ground
      (arith, equal_iff k (codes "read"), equal_iff k (codes "start"), equal_iff k (codes "end"))

not-Mentions-nil : {word : Bytes} {ks : List Bytes} → ks ≡ [] → ¬ Mentions word ks
not-Mentions-nil e (here _) = cc
not-Mentions-nil e (there _) = cc

-- `t` is set by `a` already, or named by a keyword.
abbrev pub WillBeSet : AnnotationType → Annotations → List Bytes → Type 0
WillBeSet t a ks = (get a t ≡ true) ⊎ Mentions (annotation_string t) ks

or-eq-true : (b c : Bool) → (b || c) ≡ true → (b ≡ true) ⊎ (c ≡ true)
or-eq-true b c h = ground arith

forth :
    (k : Bytes) (ks : List Bytes) (a : Annotations) (t : AnnotationType)
    → WillBeSet t (annotate (trim_space k) a) ks
    → WillBeSet t a (k ∷ ks)
forth k ks a t (inr m) = inr (there m)
forth k ks a t (inl e) = elim (or-eq-true _ _ (sym (get-annotate (trim_space k) a t) ∙ e)) [
  | inl same ↦ inr (here ((equal_iff _ _).0 same))
  | inr old ↦ inl old
]

back_old :
    (k : Bytes) (a : Annotations) (t : AnnotationType)
    → get a t ≡ true
    → get (annotate (trim_space k) a) t ≡ true
back_old k a t e = ground (arith, get-annotate (trim_space k) a t)

back_new :
    (k : Bytes) (a : Annotations) (t : AnnotationType)
    → trim_space k ≡ annotation_string t
    → get (annotate (trim_space k) a) t ≡ true
back_new k a t e =
    ground
      (arith, get-annotate (trim_space k) a t, (equal_iff (trim_space k) (annotation_string t)).1 e)

back :
    (k : Bytes) (ks : List Bytes) (a : Annotations) (t : AnnotationType)
    → WillBeSet t a (k ∷ ks)
    → WillBeSet t (annotate (trim_space k) a) ks
back k ks a t (inl e) = inl (back_old k a t e)
back k ks a t (inr m) = elim (Mentions-cons m) [
  | inl e ↦ inl (back_new k a t e)
  | inr later ↦ inr later
]

pub get-annotate_all :
    (ks : List Bytes) (a : Annotations) (t : AnnotationType)
    → (get (annotate_all ks a) t ≡ true) ↔ WillBeSet t a ks
unfolding annotate_all
get-annotate_all [] a t =
    (λ h. inl h, λ h. elim h [ inl e ↦ e | inr m ↦ absurd (not-Mentions-nil refl m) ])
get-annotate_all (k ∷ ks) a t =
    let ih = get-annotate_all ks (annotate (trim_space k) a) t in
    (λ h. forth k ks a t (ih.0 h), λ h. ih.1 (back k ks a t h))
