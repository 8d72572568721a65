-- ===== src/Base/Version/Refusals.antt =====
-- Which version strings the parser of base/version.c refuses by their last byte.
use inkwell.Prelude.{
  ℕ, suc, ◌+◌, ◌-◌, ◌*◌, ◌<◌, ◌≡◌, ◌≢◌, ◌⊎◌, inl, inr, refl, ap, ◌∙◌, arith, Bool, true, false,
  ◌||◌, Option, none, some, [], ◌∷◌, ◌++◌, Bytes, length, drop, ltb, ◌==◌, if◌then◌else◌,
  Bool-cases,
}
use inkwell.Base.Version.{
  is_digit, is_allowed, valid_loop, dot_identifiers_are_valid, Semver, number_loop, parse_number,
  required_number, skip_blanks, starts, before, behind, build_is_valid, parse_tail, parse_patch,
  parse_minor, semver_parse, ◌>>=◌, above, version_compare,
}
use inkwell.Base.Version.Order.{garbled_never_above}

-- No letter, digit, dash or blank.
abbrev pub IsStray : ℕ → Type 0
IsStray c =
    ((c < b'0') ⊎ (b'9' < c))
    × ((c < b'A') ⊎ (b'Z' < c))
    × ((c < b'a') ⊎ (b'z' < c))
    × (c ≢ b'-')
    × (c ≢ b' ')
    × (c ≢ 9)

-- A text that such a byte ends.
abbrev EndsAt : ℕ → Bytes → Type 0
EndsAt c text = (front : Bytes) × (text ≡ front ++ (c ∷ []))

abbrev EndsOrEmpty : ℕ → Bytes → Type 0
EndsOrEmpty c text = (text ≡ []) ⊎ EndsAt c text

stray_no_digit : (c : ℕ) → IsStray c → is_digit c ≡ false
unfolding is_digit
stray_no_digit c (digits, upper, lower, dash, blank, tab) = ground arith

stray_not_allowed : (c : ℕ) → IsStray c → is_allowed c ≡ false
unfolding is_allowed is_digit
stray_not_allowed c (digits, upper, lower, dash, blank, tab) = ground arith

valid_loop_ends :
    (front : Bytes) (c run : ℕ) → IsStray c → valid_loop (front ++ (c ∷ [])) run ≡ false
unfolding valid_loop
valid_loop_ends [] c run odd = elim (Bool-cases (c == b'.')) [
  | inl dot ↦ elim (Bool-cases (run == 0)) [
    | inl empty ↦ rw (dot, empty) refl
    | inr some_run ↦ rw (dot, some_run) refl
  ]
  | inr other ↦ rw (other, stray_not_allowed c odd) refl
]
valid_loop_ends (d ∷ front) c run odd = elim (Bool-cases (d == b'.')) [
  | inl dot ↦ elim (Bool-cases (run == 0)) [
    | inl empty ↦ rw (dot, empty) refl
    | inr some_run ↦ rw (dot, some_run) (valid_loop_ends front c 0 odd)
  ]
  | inr other ↦ elim (Bool-cases (is_allowed d)) [
    | inl fine ↦ rw (other, fine) (valid_loop_ends front c (run + 1) odd)
    | inr bad ↦ rw (other, bad) refl
  ]
]

valid_ends :
    (c : ℕ) (text : Bytes) → IsStray c → EndsOrEmpty c text → dot_identifiers_are_valid text ≡ false
unfolding dot_identifiers_are_valid valid_loop
valid_ends c text odd (inl empty) = rw empty refl
valid_ends c text odd (inr (front, same)) = rw same (valid_loop_ends front c 0 odd)

drop_ends : (c : ℕ) (text : Bytes) → EndsAt c text → EndsOrEmpty c (drop 1 text)
drop_ends c text ([], same) = inl (ap (λ (t : Bytes). drop 1 t) same)
drop_ends c text (d ∷ front, same) = inr (front, ap (λ (t : Bytes). drop 1 t) same)

-- A build behind the prerelease, or none.
split_loop_ends :
    (c run : ℕ) (front : Bytes)
    → IsStray c
    → (valid_loop (before b'+' (front ++ (c ∷ []))) run ≡ false)
      ⊎ (build_is_valid (behind b'+' (front ++ (c ∷ []))) ≡ false)
unfolding before behind dot_identifiers_are_valid valid_loop
split_loop_ends c run [] odd = elim (Bool-cases (c == b'+')) [
  | inl plus ↦ inr (rw plus refl)
  | inr other ↦ inl (rw other (valid_loop_ends [] c run odd))
]
split_loop_ends c run (d ∷ front) odd = elim (Bool-cases (d == b'+')) [
  | inl plus ↦ inr (rw plus (valid_loop_ends front c 0 odd))
  | inr other ↦ elim (Bool-cases (d == b'.')) [
    | inl dot ↦ elim (Bool-cases (run == 0)) [
      | inl empty ↦ inl (rw (other, dot, empty) refl)
      | inr some_run ↦ rw (other, dot, some_run) (split_loop_ends c 0 front odd)
    ]
    | inr no_dot ↦ elim (Bool-cases (is_allowed d)) [
      | inl fine ↦ rw (other, no_dot, fine) (split_loop_ends c (run + 1) front odd)
      | inr bad ↦ inl (rw (other, no_dot, bad) refl)
    ]
  ]
]

split_ends :
    (c : ℕ) (text : Bytes)
    → IsStray c
    → EndsOrEmpty c text
    → (dot_identifiers_are_valid (before b'+' text) ≡ false)
      ⊎ (build_is_valid (behind b'+' text) ≡ false)
unfolding dot_identifiers_are_valid valid_loop before
split_ends c text odd (inl empty) = inl (rw empty refl)
split_ends c text odd (inr (front, same)) = rw same (split_loop_ends c 0 front odd)

not_empty : (front : Bytes) (c : ℕ) → (length (front ++ (c ∷ [])) == 0) ≡ false
not_empty [] c = refl
not_empty (d ∷ front) c = ground arith

parse_tail_ends :
    (major minor patch c : ℕ) (text : Bytes)
    → IsStray c
    → EndsAt c text
    → parse_tail major minor patch text ≡ none
unfolding parse_tail
parse_tail_ends major minor patch c text odd ends =
    let behind_first = drop_ends c text ends in
    elim (Bool-cases (starts text b'-')) [
      | inl dash ↦ elim (split_ends c (drop 1 text) odd behind_first) [
        | inl bad ↦ rw (dash, bad) refl
        | inr bad ↦ elim (Bool-cases (dot_identifiers_are_valid (before b'+' (drop 1 text)))) [
          | inl fine ↦ rw (dash, fine, bad) refl
          | inr no_pre ↦ rw (dash, no_pre) refl
        ]
      ]
      | inr no_dash ↦ elim (Bool-cases (starts text b'+')) [
        | inl plus ↦ rw (no_dash, plus, valid_ends c (drop 1 text) odd behind_first) refl
        | inr no_plus ↦
            let some_left : (length text == 0) ≡ false =
              ap (λ (t : Bytes). length t == 0) ends.1 ∙ not_empty ends.0 c in
            rw (no_dash, no_plus, some_left) refl
      ]
    ]

number_loop_ends :
    (front : Bytes) (c used value : ℕ)
    → IsStray c
    → (k : ℕ) × ((number_loop (front ++ (c ∷ [])) used value).0 ≡ used + k)
      × EndsAt c (drop k (front ++ (c ∷ [])))
unfolding number_loop
number_loop_ends [] c used value odd = (0, rw (stray_no_digit c odd) (omega arith), ([], refl))
number_loop_ends (d ∷ front) c used value odd = elim (Bool-cases (is_digit d)) [
  | inl digit ↦
      let (k, count, ends) =
        number_loop_ends front c (used + 1)
          (if ltb value 100000000 then value * 10 + (d - b'0') else value) odd in
      (suc k, rw digit (omega (arith, count)), ends)
  | inr other ↦ (0, rw other (omega arith), (d ∷ front, refl))
]

zero_add : (k : ℕ) → 0 + k ≡ k
zero_add k = omega arith

if_none :
    (b : Bool) (x : ℕ × Bytes) (go_on : ℕ × Bytes → Option Semver)
    → go_on x ≡ none
    → ((if b then none else some x) >>= go_on) ≡ none
if_none true x go_on e = refl
if_none false x go_on e = e

required_ends :
    (c : ℕ) (text : Bytes) (go_on : ℕ × Bytes → Option Semver)
    → IsStray c
    → EndsOrEmpty c text
    → ((n : ℕ) (rest : Bytes) → EndsAt c rest → go_on (n, rest) ≡ none)
    → (required_number text >>= go_on) ≡ none
unfolding required_number parse_number number_loop
required_ends c text go_on odd (inl empty) refuse = rw empty refl
required_ends c text go_on odd (inr (front, same)) refuse =
    let (k, count, ends) = number_loop_ends front c 0 0 odd in
    let (used, value) = number_loop text 0 0 in
    let left : EndsAt c (drop used text) =
      rw (ap (λ (t : Bytes). (number_loop t 0 0).0) same, count, same, zero_add k) ends in
    if_none (used == 0) (value, drop used text) go_on (refuse value (drop used text) left)

parse_patch_ends :
    (major minor c : ℕ) (text : Bytes)
    → IsStray c
    → EndsAt c text
    → parse_patch major minor text ≡ none
unfolding parse_patch
parse_patch_ends major minor c text odd ends = elim (Bool-cases (starts text b'.')) [
  | inl dot ↦ rw dot (
      required_ends c (drop 1 text) _ odd (drop_ends c text ends)
        (λ patch rest left. parse_tail_ends major minor patch c rest odd left))
  | inr other ↦ rw other (parse_tail_ends major minor 0 c text odd ends)
]

parse_minor_ends :
    (major c : ℕ) (text : Bytes) → IsStray c → EndsAt c text → parse_minor major text ≡ none
unfolding parse_minor
parse_minor_ends major c text odd ends = elim (Bool-cases (starts text b'.')) [
  | inl dot ↦ rw dot (
      required_ends c (drop 1 text) _ odd (drop_ends c text ends)
        (λ minor rest left. parse_patch_ends major minor c rest odd left))
  | inr other ↦ rw other (parse_tail_ends major 0 0 c text odd ends)
]

skip_blanks_ends : (front : Bytes) (c : ℕ) → IsStray c → EndsAt c (skip_blanks (front ++ (c ∷ [])))
unfolding skip_blanks
skip_blanks_ends [] c (digits, upper, lower, dash, blank, tab) =
    let no_blank : (c == b' ' || c == 9) ≡ false = ground arith in rw no_blank ([], refl)
skip_blanks_ends (d ∷ front) c odd = elim (Bool-cases (d == b' ' || d == 9)) [
  | inl blank ↦ rw blank (skip_blanks_ends front c odd)
  | inr other ↦ rw other (d ∷ front, refl)
]

either_ends :
    (b : Bool) (c : ℕ) (text : Bytes)
    → EndsAt c text
    → EndsOrEmpty c (if b then drop 1 text else text)
either_ends true c text ends = drop_ends c text ends
either_ends false c text ends = inr ends

semver_parse_ends :
    (front : Bytes) (c : ℕ) → IsStray c → semver_parse (some (front ++ (c ∷ []))) ≡ none
unfolding semver_parse
semver_parse_ends front c odd =
    let trimmed = skip_blanks (front ++ (c ∷ [])) in
    required_ends c (if starts trimmed b'v' || starts trimmed b'V' then drop 1 trimmed else trimmed)
      _ odd
      (either_ends (starts trimmed b'v' || starts trimmed b'V') c trimmed
        (skip_blanks_ends front c odd))
      (λ major rest left. parse_minor_ends major c rest odd left)

-- A version string that ends in a byte which is no ASCII letter, digit, dash, space or tab is
-- refused, whatever stands in front of it: a dot with no number or identifier behind it, a plus with
-- no build, or a byte that no version has. It never compares above another.
pub version_compare_dangling :
    (front : Bytes) (c : ℕ) (other : Option Bytes)
    → IsStray c
    → (semver_parse (some (front ++ (c ∷ []))) ≡ none)
      × (version_compare (some (front ++ (c ∷ []))) other ≢ above)
version_compare_dangling front c other odd =
    let refused = semver_parse_ends front c odd in
    (refused, garbled_never_above (some (front ++ (c ∷ []))) other refused)
