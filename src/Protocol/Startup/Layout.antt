-- ===== src/Protocol/Startup/Layout.antt =====
-- The startup and password messages are laid out as the protocol asks.
use crunchy_proxy.Go.BigEndian.{be32}
use crunchy_proxy.Go.{Bytes, ok, codes}
use crunchy_proxy.Prelude.{◌≡◌, refl, ap, ◌∙◌, List, [], ◌∷◌, ◌++◌, append_assoc, append-nil}
use crunchy_proxy.Protocol.Frame.Layout.{frame, startup_frame, finish-frame, finish-startup_frame}
use crunchy_proxy.Protocol.Frame.{protocol_version}
use crunchy_proxy.Protocol.MessageType
use crunchy_proxy.Protocol.Message.Laws.{holding}
use crunchy_proxy.Protocol.Message.{
  result_of, and_then, ◌>>◌, reset_length, length_offset_startup, write_byte, get_bytes,
}
use crunchy_proxy.Protocol.Startup.{write_options, create_startup_message, create_password_message}

-- Names and values as NUL-terminated strings.
abbrev pub strings : List (Bytes × Bytes) → Bytes
strings [] = []
strings ((name, value) ∷ params) = name ++ 0 ∷ (value ++ 0 ∷ strings params)

write_options-strings :
    (options : List (Bytes × Bytes)) (b : Bytes)
    → write_options options (holding b) ≡ ok (tt, holding (b ++ strings options))
unfolding write_options
write_options-strings [] b = rw append-nil
write_options-strings ((name, value) ∷ options) b =
    write_options-strings options ((b ++ (name ++ 0 ∷ [])) ++ (value ++ 0 ∷ [])) ∙ simp append_assoc

abbrev pub startup_params : Bytes → Bytes → List (Bytes × Bytes) → List (Bytes × Bytes)
startup_params username database options =
    (codes "user", username) ∷ (codes "database", database) ∷ options

-- The startup message is the protocol version, the user, the database and the options as
-- NUL-terminated strings, and a NUL, behind the length of it all. It is built for every input.
pub create_startup_message-frame :
    (username database : Bytes) (options : List (Bytes × Bytes))
    → create_startup_message username database options
      ≡ ok (
          startup_frame (
            be32 protocol_version
            ++ (strings (startup_params username database options) ++ 0 ∷ [])))
unfolding create_startup_message be32
create_startup_message-frame username database options =
    ap
      (λ o.
        result_of (and_then o λ _. do write_byte 0; reset_length length_offset_startup; get_bytes))
      (write_options-strings options _)
    ∙ finish-startup_frame
        (be32 protocol_version ++ (strings (startup_params username database options) ++ 0 ∷ []))
        (simp append_assoc)

-- The password message is the password and a NUL, behind the type and the length.
pub create_password_message-frame :
    (password : Bytes)
    → create_password_message password ≡ ok (frame MessageType.password (password ++ 0 ∷ []))
unfolding create_password_message be32
create_password_message-frame password = finish-frame MessageType.password (password ++ 0 ∷ []) refl
