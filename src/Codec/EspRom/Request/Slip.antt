-- ===== src/Codec/EspRom/Request/Slip.antt =====
-- The framing of a request against SLIP's rule for one byte.
use inkwell.Prelude.{
  ℕ, ◌+◌, ◌≤◌, ◌≡◌, ◌∙◌, ap, refl, arith, false, Option, none, some, [], ◌∷◌, ◌++◌, append_assoc,
  append-nil, Bytes, length, length-append, ltb, ltb→le, ◌==◌, if◌then◌else◌, ok, err, enobufs,
  Bool-cases, inl, inr,
}
use inkwell.Codec.EspRom.Request.{
  slip_end, slip_esc, slip_esc_end, slip_esc_esc, slip_put, slip_put_all, slip_close, request,
  request_header,
}

-- What stands for one byte, and for each byte of a run, between two delimiters.
unfoldable pub escape_byte : ℕ → Bytes
escape_byte byte =
    if byte == slip_end
    then slip_esc ∷ slip_esc_end ∷ []
    else if byte == slip_esc
    then slip_esc ∷ slip_esc_esc ∷ []
    else byte ∷ []

unfoldable pub escaped : Bytes → Bytes
escaped [] = []
escaped (byte ∷ bytes) = escape_byte byte ++ escaped bytes

-- `written` with `more` behind it, if that fits.
abbrev fit : ℕ → Bytes → Bytes → Option Bytes
fit out_len written more =
    if ltb out_len (length written + length more) then none else some (written ++ more)

slip_put-fit :
    (out_len : ℕ) (written : Bytes) (byte : ℕ)
    → slip_put out_len written byte ≡ fit out_len written (escape_byte byte)
unfolding slip_put escape_byte
slip_put-fit out_len written byte = ground arith

slip_put_all-none : (out_len : ℕ) (bytes : Bytes) → slip_put_all out_len none bytes ≡ none
unfolding slip_put_all
slip_put_all-none out_len [] = refl
slip_put_all-none out_len (b ∷ bytes) = refl

-- The bytes behind one that was put, given what they do from there on.
behind_fit :
    (out_len : ℕ) (written one more bytes : Bytes)
    → (length (written ++ one) ≤ out_len
        → slip_put_all out_len (some (written ++ one)) bytes ≡ fit out_len (written ++ one) more)
    → slip_put_all out_len (fit out_len written one) bytes ≡ fit out_len written (one ++ more)
behind_fit out_len written one more bytes ih =
    elim (Bool-cases (ltb out_len (length written + length one))) [
      | inl full ↦ rw (full, slip_put_all-none) (ground (arith, length-append one more))
      | inr room ↦
          rw (room, ih (grown room))
            (ground (
              arith,
              length-append one more,
              length-append written one,
              append_assoc written one more,
            ))
    ]
  where
    grown : ltb out_len (length written + length one) ≡ false → length (written ++ one) ≤ out_len
    grown room = omega (arith, length-append written one, ltb→le _ _ room)

slip_put_all-fit :
    (out_len : ℕ) (written bytes : Bytes)
    → length written ≤ out_len
    → slip_put_all out_len (some written) bytes ≡ fit out_len written (escaped bytes)
unfolding slip_put_all escaped
slip_put_all-fit out_len written [] h = rw append-nil (ground arith)
slip_put_all-fit out_len written (b ∷ bytes) h =
    ap (λ o. slip_put_all out_len o bytes) (slip_put-fit out_len written b)
    ∙ behind_fit out_len written (escape_byte b) (escaped bytes) bytes
        (slip_put_all-fit out_len (written ++ escape_byte b) bytes)

slip_put_all-append :
    (out_len : ℕ) (o : Option Bytes) (xs ys : Bytes)
    → slip_put_all out_len (slip_put_all out_len o xs) ys ≡ slip_put_all out_len o (xs ++ ys)
unfolding slip_put_all
slip_put_all-append out_len none xs ys = slip_put_all-none out_len ys
slip_put_all-append out_len (some written) [] ys = refl
slip_put_all-append out_len (some written) (x ∷ xs) ys =
    slip_put_all-append out_len (slip_put out_len written x) xs ys

-- The bytes of a request between its delimiters, before they are escaped.
abbrev pub request_bytes : ℕ → Bytes → Bytes → ℕ → Bytes
request_bytes op head body checksum =
    request_header op (length head + length body) checksum ++ (head ++ body)

-- A request is one delimiter, its header, words and block with every byte escaped as SLIP says, and
-- one delimiter; it is refused for want of room exactly where those bytes are more than the buffer.
pub request-escaped :
    (op checksum out_len : ℕ) (head body : Bytes)
    → request op head body checksum (some out_len) ≡ (
        if ltb out_len (2 + length (escaped (request_bytes op head body checksum)))
        then err enobufs
        else ok (slip_end ∷ (escaped (request_bytes op head body checksum) ++ (slip_end ∷ []))))
unfolding request slip_close
request-escaped op checksum out_len head body =
    let raw = request_bytes op head body checksum in
    let header = request_header op (length head + length body) checksum in
    elim (Bool-cases (ltb out_len 1)) [
      | inl full ↦ ground arith
      | inr room ↦
          rw
            (
              slip_put_all-append out_len (slip_put_all out_len (some (slip_end ∷ [])) header) head
                  body,
              slip_put_all-append out_len (some (slip_end ∷ [])) header (head ++ body),
              slip_put_all-fit out_len (slip_end ∷ []) raw (ltb→le _ _ room),
            )
            (ground (arith, length-append (slip_end ∷ []) (escaped raw)))
    ]
