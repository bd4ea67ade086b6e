-- ===== src/Tcp/Auth.antt =====
-- The proof of an AuthVerify frame: authVerifyMAC, authVerifyPayload and authTokenFromPayload of
-- session.go.
pub mod Laws
use goster_io_t.Common.{
  ℕ, ◌+◌, ◌-◌, Option, none, some, List, [], ◌∷◌, ◌++◌, length, take, drop, is_empty, leb, ◌==◌,
  ◌||◌, if◌then◌else◌,
}
use goster_io_t.Common.Result.{Result, ok, err}
use goster_io_t.Common.Word.{Bytes, put_le, write_at}
use goster_io_t.Common.Text.{Text, str_eq}
use goster_io_t.Tcp.Types.{
  Library, Session, SessionError, no_session_key, no_handshake, no_mac, wrong_mac,
}

-- sha256.Size
abbrev pub mac_size : ℕ
mac_size = 32

unfoldable pub auth_verify_mac : Library → Bytes → Bytes → Bytes → ℕ → Bytes → Bytes
auth_verify_mac lib session_key client server timestamp token =
    lib.hmac session_key (client ++ (server ++ (put_le 8 timestamp ++ token)))

unfoldable pub auth_verify_payload : Library → Bytes → Bytes → Bytes → ℕ → Bytes → Bytes
auth_verify_payload lib session_key client server timestamp token =
    token ++ auth_verify_mac lib session_key client server timestamp token

-- A nil key has length 0, too.
abbrev pub key_bytes : Option Bytes → Bytes
key_bytes none = []
key_bytes (some key) = key

unfoldable pub auth_token_from_payload :
    Library → Session → Bytes → Option Bytes → Result SessionError Text
auth_token_from_payload lib s payload session_key =
    let key = key_bytes session_key in
    let cut = length payload - mac_size in
    let token = take cut payload in
    if is_empty key
    then err no_session_key
    else if is_empty s.server_pub_key || s.handshake_ts == 0
    then err no_handshake
    else if leb (length payload) mac_size
    then err no_mac
    else if str_eq (drop cut payload)
        (auth_verify_mac lib key s.client_pub_key s.server_pub_key s.handshake_ts token)
    then ok token
    else err wrong_mac
