-- ===== src/Proxy/Annotation.antt =====
-- proxy/annotation.go and proxy/parse.go: the annotations in the first comment of a query.
pub mod Keywords
pub mod Comment
use crunchy_proxy.Go.Strings.{index_of, split, trim_space}
use crunchy_proxy.Go.{Bytes, Outcome, ok, ◌>>=◌, codes, equal, slice}
use crunchy_proxy.Prelude.{
  ℕ, ◌+◌, Bool, true, false, List, [], ◌∷◌, Option, none, some, if◌then◌else◌,
}
use crunchy_proxy.Protocol.Message.{M, lift, run_on, read_byte, read_int32, read_string}
use crunchy_proxy.Protocol.Message as Message

pub data AnnotationType : Type 0 where
  read_annotation start_annotation end_annotation : AnnotationType

-- The constant names; a value of the Go type outside the constants has the empty name.
unfoldable pub annotation_string : AnnotationType → Bytes
annotation_string read_annotation = codes "read"
annotation_string start_annotation = codes "start"
annotation_string end_annotation = codes "end"

abbrev pub start_token : Bytes
start_token = codes "/*"

abbrev pub end_token : Bytes
end_token = codes "*/"

-- `map[AnnotationType]bool`: a key that is not in the map reads as false.
pub record Annotations : Type 0 where
  pub read : Bool
  pub start : Bool
  pub finish : Bool

-- `annotations[key]`
abbrev pub get : Annotations → AnnotationType → Bool
get a read_annotation = a.read
get a start_annotation = a.start
get a end_annotation = a.finish

abbrev pub no_annotations : Annotations
no_annotations = record { read = false; start = false; finish = false }

-- the `switch` on one keyword
unfoldable pub annotate : Bytes → Annotations → Annotations
annotate keyword a =
    if equal keyword (annotation_string read_annotation)
    then record a { read = true }
    else if equal keyword (annotation_string start_annotation)
    then record a { start = true }
    else if equal keyword (annotation_string end_annotation)
    then record a { finish = true }
    else a

-- the loop over the keywords
unfoldable pub annotate_all : List Bytes → Annotations → Annotations
unfolding annotate
annotate_all [] a = a
annotate_all (keyword ∷ keywords) a = annotate_all keywords (annotate (trim_space keyword) a)

-- What `getAnnotations` does with the positions of the two tokens. The slice expression panics if the
-- end token is found before the text behind the start token.
unfoldable pub annotations_between : Bytes → Option ℕ → Option ℕ → Outcome Annotations
annotations_between query (some start_pos) (some end_pos) = do
  inner ← slice query (start_pos + 2) end_pos
  ok (annotate_all (split b',' inner) no_annotations)
annotations_between query _ _ = ok no_annotations

-- `getAnnotations` from the two calls of `strings.Index` on.
unfoldable pub query_annotations : Bytes → Outcome Annotations
unfolding annotations_between
query_annotations query =
    annotations_between query (index_of query start_token) (index_of query end_token)

-- The query string of a message: what stands behind the type and the length.
unfoldable pub query_string : M Bytes
query_string =
    Message.◌>>=◌ read_byte
      λ _. Message.◌>>=◌ read_int32 λ _. Message.◌>>=◌ read_string λ query. Message.return query.0

unfoldable pub get_annotations : Bytes → Outcome Annotations
unfolding query_string
get_annotations m = do query ← run_on m query_string; query_annotations query
