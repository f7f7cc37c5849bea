-- ===== src/Proxy/Annotation/Comment.antt =====
-- Reading the comment of a query.
use crunchy_proxy.Go.BigEndian.{be32, uint32}
use crunchy_proxy.Go.Strings.{index_of-le, index_of, split}
use crunchy_proxy.Go.{Bytes, ◌>>=◌, HasNoNul, ok, panic, slice, slice-eq-ok}
use crunchy_proxy.Prelude.{
  ℕ, ◌+◌, ◌-◌, ◌<◌, ◌≤◌, ◌≡◌, ap, ◌∙◌, ◌↔◌, ◌⊎◌, inl, inr, true, List, [], ◌∷◌, ◌++◌, none, some,
  arith, length, take, drop, append_assoc,
}
use crunchy_proxy.Proxy.Annotation.Keywords.{Mentions, WillBeSet, get-annotate_all}
use crunchy_proxy.Proxy.Annotation.{
  AnnotationType, read_annotation, start_annotation, end_annotation, annotation_string, Annotations,
  get, annotate_all, no_annotations, query_annotations, annotations_between, get_annotations,
  start_token, end_token,
}
use crunchy_proxy.Protocol.Frame.Layout.{frame}
use crunchy_proxy.Protocol.Message.Laws.{holding, read_string-append}
use crunchy_proxy.Protocol.Message.{result_of, and_then, return, read_string, read_byte, read_int32}
use crunchy_proxy.Protocol.MessageType

-- The message of a query, with any bytes behind it in the buffer.
abbrev pub query_message : Bytes → Bytes → Bytes
query_message query rest = frame MessageType.query (query ++ 0 ∷ []) ++ rest

get_annotations-query_message :
    (query rest : Bytes)
    → HasNoNul query
    → get_annotations (query_message query rest) ≡ query_annotations query
unfolding get_annotations be32 uint32 read_byte read_int32 read_string
get_annotations-query_message query rest h =
    ap (λ b. result_of (and_then (read_string (holding b)) (λ r. return r.0)) >>= query_annotations)
      (append_assoc query (0 ∷ []) rest)
    ∙ ap (λ o. result_of (and_then o (λ r. return r.0)) >>= query_annotations)
        (read_string-append query rest h)

-- A query without NUL in which one of the two comment tokens is missing has no annotation.
pub get_annotations-none :
    (query rest : Bytes)
    → HasNoNul query
    → (index_of query start_token ≡ none) ⊎ (index_of query end_token ≡ none)
    → get_annotations (query_message query rest) ≡ ok no_annotations
unfolding query_annotations
get_annotations-none query rest h e = get_annotations-query_message query rest h ∙ ground arith

only_new :
    (t : AnnotationType) {ks : List Bytes}
    → WillBeSet t no_annotations ks
    → Mentions (annotation_string t) ks
only_new read_annotation w = elim w [ inl e ↦ cc | inr m ↦ m ]
only_new start_annotation w = elim w [ inl e ↦ cc | inr m ↦ m ]
only_new end_annotation w = elim w [ inl e ↦ cc | inr m ↦ m ]

module _ (query rest : Bytes) (s e : ℕ) (h : HasNoNul query)
    (p : index_of query start_token ≡ some s) (q : index_of query end_token ≡ some e) where
  between : get_annotations (query_message query rest) ≡ annotations_between query (some s) (some e)
  unfolding query_annotations
  between = get_annotations-query_message query rest h ∙ rw (p, q, query_annotations)

  bound : e ≤ length query
  bound = omega (arith, index_of-le query end_token e q)

  -- For a query without NUL that holds both comment tokens, `getAnnotations` panics exactly when
  -- the first end token stands before the end of the first start token.
  pub get_annotations_panics : (get_annotations (query_message query rest) ≡ panic) ↔ (e < s + 2)
  unfolding annotations_between slice
  get_annotations_panics = rw between (ground (arith, index_of-le query end_token e q))

  -- For a query without NUL whose first start token is at `s`, wherever that is, and whose first end
  -- token is at `e`, not before `s + 2`: `getAnnotations` returns, and sets an annotation exactly when
  -- one of the comma-separated keywords between the tokens, less the white space round it, is its word.
  -- The words are those of the code: `read`, `start` and `end`, and not the `finish` of the user guide.
  pub get_annotations_keywords :
      s + 2 ≤ e
      → (a : Annotations) × (get_annotations (query_message query rest) ≡ ok a)
        × ((t : AnnotationType)
            → (get a t ≡ true)
              ↔ Mentions
                  (annotation_string t)
                  (split b',' (take (e - (s + 2)) (drop (s + 2) query))))
  unfolding annotations_between
  get_annotations_keywords k = (
    annotate_all (split b',' (take (e - (s + 2)) (drop (s + 2) query))) no_annotations,
    between ∙ rw (slice-eq-ok query (s + 2) e k bound, annotations_between),
    λ t.
        let set =
          get-annotate_all (split b',' (take (e - (s + 2)) (drop (s + 2) query))) no_annotations
            t in
        (λ g. only_new t (set.0 g), λ m. set.1 (inr m)),
  )
