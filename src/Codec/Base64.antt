-- ===== src/Codec/Base64.antt =====
-- codec/base64.c: two alphabets, two strictnesses.
pub mod RoundTrip
mod Tests
use Prim.Native.Char.{code}
use Prim.Native.String
use Prim.Native.String.{String}
use inkwell.Prelude.{
  ℕ, zero, suc, ◌+◌, ◌-◌, ◌*◌, ◌/◌, ◌%◌, ◌^◌, Bool, true, false, ◌&&◌, ◌||◌, not, Option, none,
  some, List, [], ◌∷◌, ◌++◌, Bytes, low_bits, shr, u8, u32, length, get_or, take, ltb, leb, ◌==◌,
  if◌then◌else◌,
}

-- The codes of an ASCII text.
abbrev pub codes : String → Bytes
codes String.[] = []
codes (String.◌∷◌ c s) = code c ∷ codes s

abbrev pub k_standard : Bytes
k_standard = codes "ABCDEFGHIJKLMNOPQRSTUVWXYZabcdefghijklmnopqrstuvwxyz0123456789+/"

abbrev pub k_url_safe : Bytes
k_url_safe = codes "ABCDEFGHIJKLMNOPQRSTUVWXYZabcdefghijklmnopqrstuvwxyz0123456789-_"

-- The character for six bits.
pub letter : Bool → ℕ → ℕ
letter url_safe index = get_or (if url_safe then k_url_safe else k_standard) index 0

-- `alphabet[(triple >> shift) & 0x3F]`
abbrev pub sextet : ℕ → ℕ → ℕ
sextet triple shift = low_bits (shr triple shift) 6

abbrev pub triple_of : ℕ → ℕ → ℕ → ℕ
triple_of b0 b1 b2 = b0 * 65536 + b1 * 256 + b2

abbrev pub pad : Bool → Bytes
pad url_safe = if url_safe then [] else b'=' ∷ []

-- The loop over groups of three bytes.
pub encode_groups : Bool → Bytes → Bytes
encode_groups url_safe [] = []
encode_groups url_safe (b0 ∷ []) =
    let triple = triple_of b0 0 0 in
    letter url_safe (sextet triple 18)
    ∷ letter url_safe (sextet triple 12)
    ∷ (pad url_safe ++ pad url_safe)
encode_groups url_safe (b0 ∷ b1 ∷ []) =
    let triple = triple_of b0 b1 0 in
    letter url_safe (sextet triple 18)
    ∷ letter url_safe (sextet triple 12)
    ∷ letter url_safe (sextet triple 6)
    ∷ pad url_safe
encode_groups url_safe (b0 ∷ b1 ∷ b2 ∷ data') =
    let triple = triple_of b0 b1 b2 in
    letter url_safe (sextet triple 18)
    ∷ letter url_safe (sextet triple 12)
    ∷ letter url_safe (sextet triple 6)
    ∷ letter url_safe (sextet triple 0)
    ∷ encode_groups url_safe data'

-- The length that is checked before anything is written.
pub encoded_len : Bool → ℕ → ℕ
encoded_len url_safe len =
    let tail = len % 3 in
    let chars = (len + 2) / 3 * 4 in
    if url_safe && not (tail == 0) then chars - (3 - tail) else chars

-- `out` is the capacity behind the pointer, or `none` for NULL. The characters written before the
-- NUL, whose number is returned; a refusal returns 0 and writes none.
pub encode : Bytes → Bool → Option ℕ → Bytes
unfolding encode_groups encoded_len letter
encode bytes url_safe none = []
encode bytes url_safe (some out_len) =
    if out_len == 0
    then []
    else if ltb out_len (encoded_len url_safe (length bytes) + 1)
    then []
    else encode_groups url_safe bytes

-- `none` is -1.
pub base64_value : ℕ → Option ℕ
base64_value c =
    if leb b'A' c && leb c b'Z'
    then some (c - b'A')
    else if leb b'a' c && leb c b'z'
    then some (c - b'a' + 26)
    else if leb b'0' c && leb c b'9'
    then some (c - b'0' + 52)
    else if c == b'+' || c == b'-'
    then some 62
    else if c == b'/' || c == b'_'
    then some 63
    else none

pub data Form : Type 0 where
  padded any : Form

-- The length without the '=' at the end.
pub payload_len : Bytes → ℕ → ℕ
payload_len text zero = 0
payload_len text (suc n) =
    let rest = payload_len text n in if get_or text n 0 == b'=' then rest else suc n

infixl 5 ◌>>=◌
abbrev ◌>>=◌ : {A B : Type 0} → Option A → (A → Option B) → Option B
none >>= f = none
some a >>= f = f a

-- The bytes of a group at the end of what is out so far, if they fit.
pub put_group : ℕ → Bytes → Bytes → Option Bytes
put_group out_cap out bytes =
    if ltb out_cap (length out + length bytes) then none else some (out ++ bytes)

abbrev pub quad_of : ℕ → ℕ → ℕ → ℕ → ℕ
quad_of v0 v1 v2 v3 = u32 (u32 (u32 (v0 * 64 + v1) * 64 + v2) * 64 + v3)

-- The loop over groups of four characters; a group of n carries n - 1 bytes.
pub decode_groups : ℕ → Bytes → Bytes → Option Bytes
decode_groups out_cap out [] = some out
decode_groups out_cap out (c0 ∷ []) = do v0 ← base64_value c0; put_group out_cap out []
decode_groups out_cap out (c0 ∷ c1 ∷ []) = do
  v0 ← base64_value c0
  v1 ← base64_value c1
  put_group out_cap out (u8 (shr (quad_of v0 v1 0 0) 16) ∷ [])
decode_groups out_cap out (c0 ∷ c1 ∷ c2 ∷ []) = do
  v0 ← base64_value c0
  v1 ← base64_value c1
  v2 ← base64_value c2
  put_group out_cap out (u8 (shr (quad_of v0 v1 v2 0) 16) ∷ u8 (shr (quad_of v0 v1 v2 0) 8) ∷ [])
decode_groups out_cap out (c0 ∷ c1 ∷ c2 ∷ c3 ∷ text) = do
  v0 ← base64_value c0
  v1 ← base64_value c1
  v2 ← base64_value c2
  v3 ← base64_value c3
  let quad = quad_of v0 v1 v2 v3
  more ← put_group out_cap out (u8 (shr quad 16) ∷ u8 (shr quad 8) ∷ u8 quad ∷ [])
  decode_groups out_cap more text

abbrev pub is_padded : Form → Bool
is_padded padded = true
is_padded any = false

-- `none` is false; otherwise the bytes of `out` up to `*out_len`.
pub decode : Bytes → Form → ℕ → Option Bytes
unfolding decode_groups payload_len base64_value put_group
decode text form out_cap =
    let chars = length text in
    let payload = payload_len text chars in
    if is_padded form && not (chars % 4 == 0)
    then none
    else if ltb 2 (chars - payload) || payload % 4 == 1
    then none
    else decode_groups out_cap [] (take payload text)
