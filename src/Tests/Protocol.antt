-- ===== src/Tests/Protocol.antt =====
-- Concrete messages: package protocol, and the annotations of a query.
use crunchy_proxy.Go.BigEndian.{be32}
use crunchy_proxy.Go.Strings.{index_of, split}
use crunchy_proxy.Go.{Bytes, ok, panic, codes, equal}
use crunchy_proxy.Prelude.{
  List, ◌+◌, ◌-◌, ◌<◌, ◌≡◌, ◌↔◌, refl, true, [], ◌∷◌, ◌++◌, arith, take, drop,
}
use crunchy_proxy.Protocol.Authentication
use crunchy_proxy.Protocol.Error.RoundTrip.{IsSendable, sent, parse_error-get_message}
use crunchy_proxy.Protocol.Error.{Error, empty_error, get_message, parse_error}
use crunchy_proxy.Protocol.Frame.Layout.{frame, startup_frame, is_authentication_ok_exact}
use crunchy_proxy.Protocol.Frame.{is_authentication_ok, protocol_version}
use crunchy_proxy.Protocol.Message.Laws.{holding}
use crunchy_proxy.Protocol.Message.RoundTrip.{
  Item, int32, int16, byte, text, write_items, read_items, without_error, read_items-write_items,
}
use crunchy_proxy.Protocol.Message.{◌>>=◌}
use crunchy_proxy.Protocol.MessageType
use crunchy_proxy.Protocol.Startup.Layout.{strings, startup_params, create_startup_message-frame}
use crunchy_proxy.Protocol.Startup.{create_startup_message}
use crunchy_proxy.Proxy.Annotation.Comment.{
  query_message, get_annotations_panics, get_annotations_keywords,
}
use crunchy_proxy.Proxy.Annotation.Keywords.{Mentions}
use crunchy_proxy.Proxy.Annotation.{
  AnnotationType, Annotations, annotation_string, get, get_annotations,
}

abbrev not_found : Error
not_found = record empty_error { severity = codes "ERROR"; code = codes "02000"; hint = codes "x" }

not_found-IsSendable : IsSendable not_found
not_found-IsSendable = record {
  severity_ok = omega arith;
  code_ok = omega arith;
  message_ok = tt;
  detail_ok = tt;
  hint_ok = omega arith;
}

parse_error-get_message_example :
    (m : Bytes) × (get_message not_found ≡ ok m)
    × (parse_error (m ++ 0 ∷ 0 ∷ []) ≡ ok (sent not_found))
parse_error-get_message_example =
    parse_error-get_message not_found (0 ∷ 0 ∷ []) not_found-IsSendable

create_startup_message-frame_example :
    create_startup_message (codes "u") (codes "d") []
    ≡ ok (
        startup_frame (
          be32 protocol_version ++ (strings (startup_params (codes "u") (codes "d") []) ++ 0 ∷ [])))
create_startup_message-frame_example = create_startup_message-frame (codes "u") (codes "d") []

abbrev authentication_ok : Bytes
authentication_ok = b'R' ∷ 0 ∷ 0 ∷ 0 ∷ 8 ∷ 0 ∷ 0 ∷ 0 ∷ 0 ∷ []

is_authentication_ok_exact_example :
    is_authentication_ok authentication_ok
    ≡ ok (
        equal
          (take 9 authentication_ok)
          (frame MessageType.authentication (be32 Authentication.success)))
is_authentication_ok_exact_example =
    is_authentication_ok_exact authentication_ok (omega arith) (omega arith)

abbrev read_query : Bytes
read_query = codes "/*read*/select"

get_annotations_keywords_example :
    (a : Annotations) × (get_annotations (query_message read_query []) ≡ ok a)
    × ((t : AnnotationType)
        → (get a t ≡ true)
          ↔ Mentions
              (annotation_string t)
              (split b',' (take (6 - (0 + 2)) (drop (0 + 2) read_query))))
unfolding index_of
get_annotations_keywords_example =
    get_annotations_keywords read_query [] 0 6 (omega arith) refl refl (omega arith)

abbrev odd_query : Bytes
odd_query = codes "*/ /*"

get_annotations_panics_example :
    (get_annotations (query_message odd_query []) ≡ panic) ↔ (0 < 3 + 2)
unfolding index_of
get_annotations_panics_example = get_annotations_panics odd_query [] 3 0 (omega arith) refl refl

abbrev items : List Item
items = int32 8 ∷ text (codes "user") ∷ byte 7 ∷ int16 300 ∷ []

read_items-write_items_example :
    (write_items items >>= λ _. read_items items) (holding [])
    ≡ ok (without_error items, holding [])
read_items-write_items_example =
    read_items-write_items items (omega arith, (omega arith, (omega arith, (omega arith, tt))))
