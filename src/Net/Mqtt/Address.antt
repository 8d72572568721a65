-- ===== src/Net/Mqtt/Address.antt =====
-- net/mqtt_address.c: the host and the port of a target. Texts are C strings without the NUL, and
-- NULL is none. An `unsigned long` has 64 bits.
pub mod Split
mod Tests
use inkwell.Prelude.{
  ℕ, zero, suc, ◌+◌, ◌-◌, ◌*◌, Bool, true, false, ◌&&◌, ◌||◌, not, Option, none, some, List, [],
  ◌∷◌, Bytes, length, get_or, take, drop, ltb, leb, ◌==◌, if◌then◌else◌, Result, ok, err, einval,
}

abbrev pub address_max : ℕ
address_max = 256

abbrev pub one_further : Option ℕ → Option ℕ
one_further none = none
one_further (some i) = some (i + 1)

-- strchr(), as the distance to the match.
unfoldable pub index_of : ℕ → Bytes → Option ℕ
index_of c [] = none
index_of c (x ∷ xs) = let rest = one_further (index_of c xs) in if x == c then some 0 else rest

abbrev pub is_space : ℕ → Bool
is_space c = c == 32 || (leb 9 c && leb c 13)

abbrev pub is_decimal : ℕ → Bool
is_decimal c = leb 48 c && leb c 57

pub skip_space : Bytes → Bytes
skip_space [] = []
skip_space (c ∷ text) = let rest = skip_space text in if is_space c then rest else c ∷ text

-- The digits in front, behind a value, and what is left of the text.
pub decimal_loop : ℕ → Bytes → ℕ × Bytes
decimal_loop value [] = (value, [])
decimal_loop value (c ∷ text) =
    let rest = decimal_loop (value * 10 + (c - 48)) text in
    if is_decimal c then rest else (value, c ∷ text)

-- strtoul() in base 10: a value that does not fit is the largest one, a minus negates it.
abbrev pub clamp : Bool → ℕ → ℕ
clamp negative value =
    if leb 18446744073709551616 value
    then 18446744073709551615
    else if negative && not (value == 0)
    then 18446744073709551616 - value
    else value

abbrev pub clamped : Bool → ℕ × Bytes → ℕ × Bytes
clamped negative (value, rest) = (clamp negative value, rest)

pub unsigned_at : Bool → Bytes → Bytes → ℕ × Bytes
unsigned_at negative whole [] = (0, whole)
unsigned_at negative whole (c ∷ text) =
    if is_decimal c then clamped negative (decimal_loop 0 (c ∷ text)) else (0, whole)

pub signed_at : Bytes → Bytes → ℕ × Bytes
signed_at whole [] = (0, whole)
signed_at whole (c ∷ text) =
    if c == 45
    then unsigned_at true whole text
    else if c == 43
    then unsigned_at false whole text
    else unsigned_at false whole (c ∷ text)

pub strtoul : Bytes → ℕ × Bytes
strtoul text = signed_at text (skip_space text)

-- A port of a target that names one is not zero.
pub port_value : ℕ × Bytes → Result ℕ
port_value (value, []) = if value == 0 || ltb 65535 value then err einval else ok value
port_value (value, c ∷ rest) = err einval

unfoldable pub parse_port : Option Bytes → Result ℕ
parse_port none = ok 0
parse_port (some []) = err einval
parse_port (some (c ∷ text)) = port_value (strtoul (c ∷ text))

abbrev pub with_host : Bytes → Result ℕ → Result (Bytes × ℕ)
with_host host (ok port) = ok (host, port)
with_host host (err e) = err e

unfoldable pub host_and_port : ℕ → Bytes → Option Bytes → Result (Bytes × ℕ)
host_and_port host_len host port_text =
    if length host == 0 || leb host_len (length host)
    then err einval
    else with_host host (parse_port port_text)

-- Behind the bracket: nothing, or the port.
pub behind_bracket : ℕ → Bytes → Bytes → Result (Bytes × ℕ)
behind_bracket host_len host [] = host_and_port host_len host none
behind_bracket host_len host (c ∷ text) =
    if c == 58 then host_and_port host_len host (some text) else err einval

pub bracketed : ℕ → Bytes → Option ℕ → Result (Bytes × ℕ)
bracketed host_len target none = err einval
bracketed host_len target (some close) =
    if close == 1
    then err einval
    else behind_bracket host_len (take (close - 1) (drop 1 target)) (drop (close + 1) target)

abbrev pub one_colon : ℕ → Bytes → ℕ → Option ℕ → Result (Bytes × ℕ)
one_colon host_len target colon none =
    host_and_port host_len (take colon target) (some (drop (colon + 1) target))
one_colon host_len target colon (some other) = host_and_port host_len target none

-- More than one colon is an address without a port.
unfoldable pub plain : ℕ → Bytes → Option ℕ → Result (Bytes × ℕ)
plain host_len target none = host_and_port host_len target none
plain host_len target (some colon) =
    one_colon host_len target colon (index_of 58 (drop (colon + 1) target))

unfoldable pub target_split : Option Bytes → ℕ → Result (Bytes × ℕ)
target_split none host_len = err einval
target_split (some target) host_len =
    if host_len == 0
    then err einval
    else if length target == 0 || leb address_max (length target)
    then err einval
    else if get_or target 0 0 == 91
    then bracketed host_len target (index_of 93 target)
    else plain host_len target (index_of 58 target)
