-- ===== src/Net/Mqtt/Address/Split.antt =====
-- A host and a port that are written in a target are read back.
use inkwell.Prelude.{
  ℕ, suc, ◌+◌, ◌-◌, ◌*◌, ◌≤◌, ◌<◌, ◌≡◌, ◌∙◌, refl, ap, arith, true, false, ◌||◌, none, some, [],
  ◌∷◌, ◌++◌, Bytes, length, get_or, drop, ltb, leb, ◌==◌, ok, take-append_self, drop-append_self,
  drop-add,
}
use inkwell.Net.Mqtt.Address.{
  address_max, index_of, is_space, is_decimal, skip_space, decimal_loop, clamp, clamped,
  unsigned_at, signed_at, strtoul, port_value, parse_port, with_host, host_and_port, plain,
  target_split,
}

-- No byte of the text is `c`.
abbrev pub Lacks : ℕ → Bytes → Type 0
Lacks c [] = Unit
Lacks c (x ∷ xs) = ((x == c) ≡ false) × Lacks c xs

abbrev pub AreDigits : Bytes → Type 0
AreDigits [] = Unit
AreDigits (x ∷ xs) = (is_decimal x ≡ true) × AreDigits xs

-- The number that digits stand for, behind `value`.
abbrev pub number_of : ℕ → Bytes → ℕ
number_of value [] = value
number_of value (x ∷ xs) = number_of (value * 10 + (x - 48)) xs

index_of-Lacks : (c : ℕ) (xs : Bytes) → Lacks c xs → index_of c xs ≡ none
unfolding index_of
index_of-Lacks c [] l = refl
index_of-Lacks c (x ∷ xs) (other, rest) = rw (other, index_of-Lacks c xs rest) refl

index_of-append :
    (c : ℕ) (xs ys : Bytes) → Lacks c xs → index_of c (xs ++ (c ∷ ys)) ≡ some (length xs)
unfolding index_of
index_of-append c [] ys l = let same : (c == c) ≡ true = ground arith in rw same refl
index_of-append c (x ∷ xs) ys (other, rest) =
    rw (other, index_of-append c xs ys rest)
      (ap (λ (k : ℕ). some k) {x = length xs + 1} {y = suc (length xs)} (omega arith))

digits_lack_colon : (xs : Bytes) → AreDigits xs → Lacks 58 xs
digits_lack_colon [] d = tt
digits_lack_colon (x ∷ xs) (first, rest) = (ground arith, digits_lack_colon xs rest)

decimal_loop_digits :
    (xs : Bytes) (value : ℕ) → AreDigits xs → decimal_loop value xs ≡ (number_of value xs, [])
unfolding decimal_loop
decimal_loop_digits [] value d = refl
decimal_loop_digits (x ∷ xs) value (first, rest) = rw first (decimal_loop_digits xs _ rest)

clamp_small : (n : ℕ) → n ≤ 65535 → clamp false n ≡ n
clamp_small n small = ground arith

unsigned_digits :
    (whole : Bytes) (x : ℕ) (xs : Bytes)
    → AreDigits (x ∷ xs)
    → number_of 0 (x ∷ xs) ≤ 65535
    → unsigned_at false whole (x ∷ xs) ≡ (number_of 0 (x ∷ xs), [])
unfolding unsigned_at
unsigned_digits whole x xs (first, rest) small = rw first (
    ap (clamped false) (decimal_loop_digits (x ∷ xs) 0 (first, rest))
    ∙ ap (λ (n : ℕ). (n, [])) (clamp_small (number_of 0 (x ∷ xs)) small))

strtoul_digits :
    (x : ℕ) (xs : Bytes)
    → AreDigits (x ∷ xs)
    → number_of 0 (x ∷ xs) ≤ 65535
    → strtoul (x ∷ xs) ≡ (number_of 0 (x ∷ xs), [])
unfolding strtoul signed_at skip_space
strtoul_digits x xs (first, rest) small =
    let space : is_space x ≡ false = ground arith in
    let minus : (x == 45) ≡ false = ground arith in
    let plus : (x == 43) ≡ false = ground arith in
    rw (space, minus, plus) (unsigned_digits (x ∷ xs) x xs (first, rest) small)

port_value_ok : (n : ℕ) → 0 < n → n ≤ 65535 → port_value (n, []) ≡ ok n
unfolding port_value
port_value_ok n positive small =
    let wrong : (n == 0 || ltb 65535 n) ≡ false = ground arith in rw wrong refl

parse_port_digits :
    (xs : Bytes)
    → AreDigits xs
    → 0 < number_of 0 xs
    → number_of 0 xs ≤ 65535
    → parse_port (some xs) ≡ ok (number_of 0 xs)
unfolding parse_port
parse_port_digits [] digits positive small = absurd (omega arith)
parse_port_digits (x ∷ xs) digits positive small =
    ap port_value (strtoul_digits x xs digits small) ∙ port_value_ok _ positive small

host_and_port_digits :
    (host_len : ℕ) (host port : Bytes)
    → 0 < length host
    → length host < host_len
    → AreDigits port
    → 0 < number_of 0 port
    → number_of 0 port ≤ 65535
    → host_and_port host_len host (some port) ≡ ok (host, number_of 0 port)
unfolding host_and_port
host_and_port_digits host_len host port some_host fits digits positive small =
    let good : (length host == 0 || leb host_len (length host)) ≡ false = ground arith in
    rw good (ap (with_host host) (parse_port_digits port digits positive small))

plain_digits :
    (host_len : ℕ) (host port : Bytes)
    → Lacks 58 host
    → 0 < length host
    → length host < host_len
    → AreDigits port
    → 0 < number_of 0 port
    → number_of 0 port ≤ 65535
    → plain host_len (host ++ (58 ∷ port)) (some (length host)) ≡ ok (host, number_of 0 port)
unfolding plain
plain_digits host_len host port no_colon some_host fits digits positive small =
    let front = take-append_self (length host) host (58 ∷ port) refl in
    let behind : drop (length host + 1) (host ++ (58 ∷ port)) ≡ port =
      drop-add (length host) 1 (host ++ (58 ∷ port))
      ∙ ap (drop 1) (drop-append_self (length host) host (58 ∷ port) refl) in
    rw (behind, index_of-Lacks 58 port (digits_lack_colon port digits), behind, front)
      (host_and_port_digits host_len host port some_host fits digits positive small)

-- A target that is a host, a colon and digits splits into the host and the number of the digits: for
-- a host that is not empty, does not begin with a bracket, has no colon and fits the buffer, a number
-- from 1 to 65535, and a target of less than 256 bytes.
pub target_split-digits :
    (host_len : ℕ) (host port : Bytes)
    → (get_or host 0 0 == 91) ≡ false
    → Lacks 58 host
    → 0 < length host
    → length host < host_len
    → length (host ++ (58 ∷ port)) < address_max
    → AreDigits port
    → 0 < number_of 0 port
    → number_of 0 port ≤ 65535
    → target_split (some (host ++ (58 ∷ port))) host_len ≡ ok (host, number_of 0 port)
unfolding target_split
target_split-digits host_len [] port open_host no_colon some_host fits short digits positive small =
    absurd (omega arith)
target_split-digits host_len (x ∷ xs) port open_host no_colon some_host fits short digits positive
      small =
    let host = x ∷ xs in
    let room : (host_len == 0) ≡ false = ground arith in
    let sized : (length (host ++ (58 ∷ port)) == 0
          || leb address_max (length (host ++ (58 ∷ port))))
        ≡ false =
      ground arith in
    rw (room, sized, open_host, index_of-append 58 host port no_colon)
      (plain_digits host_len host port no_colon some_host fits digits positive small)
