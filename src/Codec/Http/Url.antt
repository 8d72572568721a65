-- ===== src/Codec/Http/Url.antt =====
-- The URLs and the requests of codec/http.c. Texts are C strings without the NUL.
pub mod Sendable
pub mod Request
pub mod Lines
mod Tests
use inkwell.Prelude.{
  ℕ, zero, suc, ◌+◌, ◌-◌, ◌*◌, ◌/◌, ◌%◌, Bool, true, false, ◌&&◌, ◌||◌, not, Option, none, some,
  List, [], ◌∷◌, ◌++◌, Bytes, length, get_or, take, drop, ltb, leb, ◌==◌, if◌then◌else◌,
}
use inkwell.Codec.Http.Head.{is_digit_byte, equal_nocase, contains}
use inkwell.Codec.Http.Response.{is_hex}

abbrev pub url_max : ℕ
url_max = 4096

abbrev pub host_max : ℕ
host_max = 256

pub record HttpUrl : Type 0 where
  pub tls : Bool
  pub host : Bytes
  pub port : ℕ
  pub target : Bytes

abbrev pub url_byte_ok : ℕ → Bool
url_byte_ok c = ltb 32 c && not (c == 127)

unfoldable pub url_bytes_ok : Bytes → Bool
url_bytes_ok [] = true
url_bytes_ok (c ∷ text) = let rest = url_bytes_ok text in if url_byte_ok c then rest else false

-- strcspn(): the bytes in front of the first that is one of `set`.
pub length_until : Bytes → Bytes → ℕ
length_until set [] = 0
length_until set (c ∷ text) =
    let rest = length_until set text in if contains set c then 0 else suc rest

-- memchr() in a whole text, as the distance to the match.
abbrev pub find_byte : ℕ → Bytes → Option ℕ
find_byte c text =
    let at = length_until (c ∷ []) text in if ltb at (length text) then some at else none

-- Path and query, never the fragment; and a slash in front.
abbrev pub with_slash : Bytes → Bytes
with_slash [] = 47 ∷ []
with_slash (c ∷ text) = if c == 47 then c ∷ text else 47 ∷ c ∷ text

pub set_target : HttpUrl → Bytes → Option HttpUrl
set_target url rest =
    let target = with_slash (take (length_until (35 ∷ []) rest) rest) in
    if not (url_bytes_ok rest)
    then none
    else if ltb url_max (length target + 1)
    then none
    else some (record url { target = target })

pub port_loop : ℕ → Bytes → Option ℕ
port_loop port [] = some port
port_loop port (c ∷ text) =
    let rest = port_loop (port * 10 + (c - 48)) text in if is_digit_byte c then rest else none

abbrev pub in_range : Option ℕ → Option ℕ
in_range none = none
in_range (some port) = if port == 0 || ltb 65535 port then none else some port

-- "host:" with nothing after is the default port.
pub url_port : ℕ → Option Bytes → Option ℕ
url_port default none = some default
url_port default (some []) = some default
url_port default (some (c ∷ text)) =
    if ltb 5 (length (c ∷ text)) then none else in_range (port_loop 0 (c ∷ text))

pub literal_ok : Bytes → Bool
literal_ok [] = true
literal_ok (c ∷ text) =
    let rest = literal_ok text in if is_hex c || c == 58 || c == 46 then rest else false

abbrev pub with_port : Bool → Bytes → Bytes → Option ℕ → Option HttpUrl
with_port tls host rest none = none
with_port tls host rest (some port) =
    set_target (record { tls = tls; host = host; port = port; target = [] }) rest

abbrev pub default_port : Bool → ℕ
default_port tls = if tls then 443 else 80

pub with_host : Bool → Bytes → Option Bytes → Bytes → Option HttpUrl
with_host tls host port_text rest =
    if length host == 0 || leb host_max (length host)
    then none
    else with_port tls host rest (url_port (default_port tls) port_text)

-- Behind the bracket of an address: nothing, or the port.
abbrev pub literal_port : Bytes → Option (Option Bytes)
literal_port [] = some none
literal_port (c ∷ text) = if c == 58 then some (some text) else none

abbrev pub with_literal : Bool → Bytes → Bytes → Option (Option Bytes) → Option HttpUrl
with_literal tls host rest none = none
with_literal tls host rest (some port_text) =
    if literal_ok host then with_host tls host port_text rest else none

abbrev pub parse_literal : Bool → Bytes → Bytes → Option ℕ → Option HttpUrl
parse_literal tls authority rest none = none
parse_literal tls authority rest (some close) =
    with_literal tls (take (close - 1) (drop 1 authority)) rest
      (literal_port (drop (close + 1) authority))

abbrev pub parse_name : Bool → Bytes → Bytes → Option ℕ → Option HttpUrl
parse_name tls authority rest none = with_host tls authority none rest
parse_name tls authority rest (some colon) =
    with_host tls (take colon authority) (some (drop (colon + 1) authority)) rest

pub parse_authority : Bool → Bytes → Option HttpUrl
parse_authority tls rest =
    let len = length_until (47 ∷ 63 ∷ 35 ∷ []) rest in
    let authority = take len rest in
    if len == 0 || not (url_bytes_ok authority) || contains authority 64
    then none
    else if get_or authority 0 0 == 91
    then parse_literal tls authority (drop len rest) (find_byte 93 authority)
    else parse_name tls authority (drop len rest) (find_byte 58 authority)

abbrev pub text_https : Bytes
text_https = 104 ∷ 116 ∷ 116 ∷ 112 ∷ 115 ∷ []

abbrev pub text_http : Bytes
text_http = 104 ∷ 116 ∷ 116 ∷ 112 ∷ []

abbrev pub colon_slashes : Bytes
colon_slashes = 58 ∷ 47 ∷ 47 ∷ []

pub url_parse : Bytes → Option HttpUrl
url_parse url =
    if equal_nocase (take 8 url) (text_https ++ colon_slashes)
    then parse_authority true (drop 8 url)
    else if equal_nocase (take 7 url) (text_http ++ colon_slashes)
    then parse_authority false (drop 7 url)
    else none

abbrev is_alpha : ℕ → Bool
is_alpha c = (leb 97 c && leb c 122) || (leb 65 c && leb c 90)

abbrev scheme_char : Bool → ℕ → Bool
scheme_char first c =
    is_alpha c || (not first && (is_digit_byte c || c == 43 || c == 45 || c == 46))

pub scheme_len : Bool → Bytes → ℕ
scheme_len first [] = 0
scheme_len first (c ∷ text) =
    let rest = scheme_len false text in if scheme_char first c then suc rest else 0

-- The front of a path up to its last slash.
pub up_to_slash : Bytes → Bytes
up_to_slash [] = []
up_to_slash (c ∷ text) =
    let rest = up_to_slash text in if not (length rest == 0) || c == 47 then c ∷ rest else []

abbrev pub relative : HttpUrl → Bytes → Option HttpUrl
relative base location =
    let path = take (length_until (63 ∷ []) base.target) base.target in
    let merged = (if get_or location 0 0 == 63 then path else up_to_slash path) ++ location in
    if leb url_max (length merged) then none else set_target base merged

pub url_resolve : HttpUrl → Bytes → Option HttpUrl
url_resolve base location =
    let scheme = scheme_len true location in
    let absolute = (if base.tls then text_https else text_http) ++ (58 ∷ location) in
    if length location == 0
    then none
    else if ltb 0 scheme && get_or location scheme 0 == 58
    then url_parse location
    else if get_or location 0 0 == 47 && get_or location 1 0 == 47
    then (if leb (url_max + 8) (length absolute) then none else url_parse absolute)
    else if get_or location 0 0 == 35
    then some base
    else if get_or location 0 0 == 47
    then set_target base location
    else relative base location
