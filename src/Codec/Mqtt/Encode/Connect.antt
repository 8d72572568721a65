-- ===== src/Codec/Mqtt/Encode/Connect.antt =====
-- CONNECT: the length that is announced is the length that is written, and what is refused.
use inkwell.Prelude.{
  ℕ, ◌+◌, ◌≤◌, ◌<◌, ◌≡◌, ap, sym, subst, arith, true, Option, none, some, [], ◌∷◌, ◌++◌, Bytes,
  length, length-append, take-length, ltb, if◌then◌else◌, ok, refl, ◌⊎◌,
}
use inkwell.Codec.Mqtt.Packet.{
  connect, string_max, write_u16, write_string, optional_len, flags_are_legal, ConnectParams,
}
use inkwell.Codec.Mqtt.Encode.{
  Packet, begin_packet, put_body, encode_connect, encode_connect_into, encode_connect_with,
  protocol_header, connect_flags, connect_body_len, optional_string,
}
use inkwell.Codec.Mqtt.Encode.Frame.{IsFrame, put_body-IsFrame}

-- The bytes of a CONNECT behind its header.
abbrev pub connect_bytes : ConnectParams → Bytes → Bytes
connect_bytes params client_id =
    protocol_header
    ++ (connect_flags params.clean_session (ltb 0 (optional_len params.username))
          (ltb 0 (optional_len params.password))
        ∷ [])
    ++ write_u16 params.keepalive_s
    ++ write_string client_id (length client_id)
    ++ optional_string params.username
    ++ optional_string params.password

-- 3.1.1 lets a password stand only with a username, and an empty client id only with a clean
-- session; no string is longer than its prefix can say.
pub record IsLegal (params : ConnectParams) (client_id : Bytes) : Type 0 where
  pub client_id_fits : length client_id ≤ string_max
  pub username_fits : optional_len params.username ≤ string_max
  pub password_fits : optional_len params.password ≤ string_max
  pub named : (0 < length client_id) ⊎ (params.clean_session ≡ true)
  pub with_username : (optional_len params.password ≡ 0) ⊎ (0 < optional_len params.username)

length-optional_string :
    (text : Option Bytes)
    → length (optional_string text)
      ≡ (if ltb 0 (optional_len text) then 2 + optional_len text else 0)
unfolding optional_string optional_len write_string
length-optional_string none = refl
length-optional_string (some text) = ground (arith, ap (λ (t : Bytes). length t) (take-length text))

length-connect_bytes :
    (params : ConnectParams) (client_id : Bytes)
    → length (connect_bytes params client_id)
      ≡ connect_body_len
          (length client_id)
          (optional_len params.username)
          (optional_len params.password)
unfolding write_u16 write_string
length-connect_bytes params client_id = rw (take-length client_id) (
    ground (
      arith,
      length-append (client_id ++ optional_string params.username)
          (optional_string params.password),
      length-append client_id (optional_string params.username),
      length-optional_string params.username,
      length-optional_string params.password,
    ))

connect_accepted :
    (cap : ℕ) (params : ConnectParams) (client_id : Bytes) (p : Packet)
    → encode_connect_with cap params client_id ≡ ok p
    → IsLegal params client_id
      × (put_body
            (begin_packet cap connect 0 (
              connect_body_len
                (length client_id)
                (optional_len params.username)
                (optional_len params.password)))
            (connect_bytes params client_id)
          ≡ ok p)
unfolding encode_connect_with
connect_accepted cap params client_id p e = ground arith

-- A CONNECT that is encoded is within what 3.1.1 lets a client say, lies in the buffer, and is framed
-- by the stream's decoder as one CONNECT of exactly its body, whatever follows.
pub encode_connect-IsFrame :
    (cap : ℕ) (params : ConnectParams) (client_id : Bytes) (p : Packet)
    → params.client_id ≡ some client_id
    → encode_connect (some cap) (some params) ≡ ok p
    → IsLegal params client_id × IsFrame connect 0 (connect_bytes params client_id) cap p
unfolding encode_connect
encode_connect-IsFrame cap params client_id p named e =
    let e' : encode_connect_with cap params client_id ≡ ok p =
      subst (λ c. encode_connect_into cap params c ≡ ok p) named e in
    let (legal, put) = connect_accepted cap params client_id p e' in
    let put' = rw (sym (length-connect_bytes params client_id)) at put in
    (
      legal,
      put_body-IsFrame cap connect 0 (connect_bytes params client_id) p (omega arith)
          (unfold flags_are_legal in refl) put',
    )
