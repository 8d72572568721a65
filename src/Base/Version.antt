-- ===== src/Base/Version.antt =====
-- base/version.c: semantic version strings, ordered. A C string is its bytes before the NUL.
pub mod Order
pub mod Refusals
mod Tests
use inkwell.Prelude.{
  ℕ, zero, suc, ◌+◌, ◌-◌, ◌*◌, Bool, true, false, ◌&&◌, ◌||◌, not, Option, none, some, List, [],
  ◌∷◌, Bytes, length, get_or, take, drop, ltb, leb, ◌==◌, if◌then◌else◌,
}

pub is_digit : ℕ → Bool
is_digit c = leb b'0' c && leb c b'9'

pub is_allowed : ℕ → Bool
unfolding is_digit
is_allowed c = is_digit c || (leb b'a' c && leb c b'z') || (leb b'A' c && leb c b'Z') || c == b'-'

-- The loop of `dot_identifiers_are_valid`, with the length of the identifier so far.
pub valid_loop : Bytes → ℕ → Bool
valid_loop [] run = not (run == 0)
valid_loop (c ∷ text) run =
    let next_identifier = valid_loop text 0 in
    let same_identifier = valid_loop text (run + 1) in
    if c == b'.'
    then (if run == 0 then false else next_identifier)
    else if not (is_allowed c)
    then false
    else same_identifier

pub dot_identifiers_are_valid : Bytes → Bool
unfolding valid_loop is_allowed
dot_identifiers_are_valid text = valid_loop text 0

pub record Semver : Type 0 where
  pub major : ℕ
  pub minor : ℕ
  pub patch : ℕ
  pub pre : Option Bytes

-- The loop of `parse_number`: how many digits, and the value, which stops growing at nine digits.
pub number_loop : Bytes → ℕ → ℕ → ℕ × ℕ
number_loop [] used value = (used, value)
number_loop (c ∷ text) used value =
    let rest =
      number_loop text (used + 1)
        (if ltb value 100000000 then value * 10 + (c - b'0') else value) in
    if is_digit c then rest else (used, value)

pub parse_number : Bytes → ℕ × ℕ
unfolding number_loop is_digit
parse_number text = number_loop text 0 0

-- A number that has to be there, and the text behind it.
pub required_number : Bytes → Option (ℕ × Bytes)
unfolding parse_number
required_number text =
    let (used, value) = parse_number text in
    if used == 0 then none else some (value, drop used text)

infixl 5 ◌>>=◌
abbrev pub ◌>>=◌ : {A B : Type 0} → Option A → (A → Option B) → Option B
none >>= f = none
some a >>= f = f a

pub skip_blanks : Bytes → Bytes
skip_blanks [] = []
skip_blanks (c ∷ text) =
    let rest = skip_blanks text in if c == b' ' || c == 9 then rest else c ∷ text

-- Whether the text goes on with this character; at its end the source reads the NUL.
abbrev pub starts : Bytes → ℕ → Bool
starts text c = get_or text 0 0 == c

-- What stands before the first such character, and what behind it.
pub before : ℕ → Bytes → Bytes
before stop [] = []
before stop (c ∷ text) = let rest = before stop text in if c == stop then [] else c ∷ rest

pub behind : ℕ → Bytes → Option Bytes
behind stop [] = none
behind stop (c ∷ text) = let rest = behind stop text in if c == stop then some text else rest

abbrev pub build_is_valid : Option Bytes → Bool
build_is_valid none = true
build_is_valid (some build) = dot_identifiers_are_valid build

-- Behind the numbers.
pub parse_tail : ℕ → ℕ → ℕ → Bytes → Option Semver
unfolding before behind dot_identifiers_are_valid
parse_tail major minor patch text =
    let numbers : Semver = record { major = major; minor = minor; patch = patch; pre = none } in
    if starts text b'-'
    then (let pre = before b'+' (drop 1 text) in
        if not (dot_identifiers_are_valid pre)
        then none
        else if build_is_valid (behind b'+' (drop 1 text))
        then some (record numbers { pre = some pre })
        else none)
    else if starts text b'+'
    then (if dot_identifiers_are_valid (drop 1 text) then some numbers else none)
    else if length text == 0
    then some numbers
    else none

pub parse_patch : ℕ → ℕ → Bytes → Option Semver
unfolding parse_tail required_number
parse_patch major minor text =
    if starts text b'.'
    then (do (patch, rest) ← required_number (drop 1 text); parse_tail major minor patch rest)
    else parse_tail major minor 0 text

pub parse_minor : ℕ → Bytes → Option Semver
unfolding parse_tail parse_patch required_number
parse_minor major text =
    if starts text b'.'
    then (do (minor, rest) ← required_number (drop 1 text); parse_patch major minor rest)
    else parse_tail major 0 0 text

-- `none` is NULL, and false.
pub semver_parse : Option Bytes → Option Semver
unfolding parse_minor required_number skip_blanks
semver_parse none = none
semver_parse (some text) =
    let trimmed = skip_blanks text in
    (do
      (major, rest) ←
          required_number
            (if starts trimmed b'v' || starts trimmed b'V' then drop 1 trimmed else trimmed)
      parse_minor major rest)

-- The sign of an `int`.
pub data Sign : Type 0 where
  below same above : Sign

abbrev pub compare_numbers : ℕ → ℕ → Sign
compare_numbers a b = if not (a == b) then (if ltb a b then below else above) else same

-- What `pre_next` yields until it is exhausted: a dot at the end opens no identifier.
pub put_front : ℕ → List Bytes → List Bytes
put_front c [] = (c ∷ []) ∷ []
put_front c (part ∷ parts) = (c ∷ part) ∷ parts

pub identifiers : Bytes → List Bytes
unfolding put_front
identifiers [] = []
identifiers (c ∷ text) =
    let rest = identifiers text in if c == b'.' then [] ∷ rest else put_front c rest

pub all_digits : Bytes → Bool
all_digits [] = true
all_digits (c ∷ text) = let rest = all_digits text in if not (is_digit c) then false else rest

pub pre_is_numeric : Bytes → Bool
unfolding all_digits is_digit
pre_is_numeric text = if length text == 0 then false else all_digits text

-- The sign of strncmp(); no identifier holds a NUL.
pub strncmp : ℕ → Bytes → Bytes → Sign
strncmp zero a b = same
strncmp (suc n) [] [] = same
strncmp (suc n) [] (y ∷ b) = below
strncmp (suc n) (x ∷ a) [] = above
strncmp (suc n) (x ∷ a) (y ∷ b) =
    let rest = strncmp n a b in if not (x == y) then (if ltb x y then below else above) else rest

-- `rest` where the sign is 0.
abbrev pub or_else : Sign → Sign → Sign
or_else same rest = rest
or_else below rest = below
or_else above rest = above

-- Two identifiers that are not both numbers nor one of them; `same` goes on to the next.
pub compare_text : Bytes → Bytes → Sign
unfolding strncmp
compare_text a b =
    let shared = if ltb (length a) (length b) then length a else length b in
    or_else (strncmp shared a b) (compare_numbers (length a) (length b))

-- A number sorts below a text.
abbrev pub by_kind : Bool → Bool → Sign → Sign → Sign
by_kind a_num b_num by_value by_text =
    if a_num && b_num then by_value else if a_num then below else if b_num then above else by_text

pub compare_identifier : Bytes → Bytes → Sign
unfolding pre_is_numeric compare_text parse_number
compare_identifier a b =
    by_kind (pre_is_numeric a) (pre_is_numeric b)
      (compare_numbers (parse_number a).1 (parse_number b).1) (compare_text a b)

-- The loop of `compare_prerelease`.
pub compare_identifiers : List Bytes → List Bytes → Sign
compare_identifiers [] [] = same
compare_identifiers [] (b ∷ rest_b) = below
compare_identifiers (a ∷ rest_a) [] = above
compare_identifiers (a ∷ rest_a) (b ∷ rest_b) =
    or_else (compare_identifier a b) (compare_identifiers rest_a rest_b)

pub compare_prerelease : Option Bytes → Option Bytes → Sign
unfolding compare_identifiers compare_identifier identifiers
compare_prerelease none none = same
compare_prerelease none (some b) = above
compare_prerelease (some a) none = below
compare_prerelease (some a) (some b) = compare_identifiers (identifiers a) (identifiers b)

pub compare_parsed : Option Semver → Option Semver → Sign
unfolding compare_prerelease
compare_parsed none none = same
compare_parsed none (some right) = below
compare_parsed (some left) none = above
compare_parsed (some left) (some right) = or_else (compare_numbers left.major right.major) (
    or_else (compare_numbers left.minor right.minor)
      (or_else (compare_numbers left.patch right.patch) (compare_prerelease left.pre right.pre)))

-- `inkwell_version_compare`, and `inkwell_version_is_prerelease`.
pub version_compare : Option Bytes → Option Bytes → Sign
unfolding compare_parsed semver_parse
version_compare a b = compare_parsed (semver_parse a) (semver_parse b)

abbrev is_some : Option Bytes → Bool
is_some none = false
is_some (some text) = true

pub has_pre : Option Semver → Bool
has_pre none = false
has_pre (some version) = is_some version.pre

pub version_is_prerelease : Option Bytes → Bool
unfolding semver_parse has_pre
version_is_prerelease version = has_pre (semver_parse version)
