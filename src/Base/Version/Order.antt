-- ===== src/Base/Version/Order.antt =====
-- What a caller that reads tags off a network relies on in the comparison.
use inkwell.Prelude.{
  ℕ, zero, suc, ◌≡◌, ◌≢◌, ◌∙◌, refl, ap₂, arith, Bool, true, false, Option, none, some, List, [],
  ◌∷◌, Bytes, length, ltb, if◌then◌else◌,
}
use inkwell.Base.Version.{
  Semver, semver_parse, Sign, below, same, above, compare_numbers, identifiers, pre_is_numeric,
  parse_number, strncmp, compare_text, compare_identifier, or_else, by_kind, compare_identifiers,
  compare_prerelease, compare_parsed, version_compare,
}

-- The other way round.
abbrev pub opposite : Sign → Sign
opposite below = above
opposite same = same
opposite above = below

or_else-opposite :
    (first rest : Sign) → or_else (opposite first) (opposite rest) ≡ opposite (or_else first rest)
or_else-opposite below rest = refl
or_else-opposite same rest = refl
or_else-opposite above rest = refl

or_else-flip :
    (first rest first' rest' : Sign)
    → first' ≡ opposite first
    → rest' ≡ opposite rest
    → or_else first' rest' ≡ opposite (or_else first rest)
or_else-flip first rest first' rest' e h = ap₂ or_else e h ∙ or_else-opposite first rest

compare_numbers-flip : (a b : ℕ) → compare_numbers b a ≡ opposite (compare_numbers a b)
compare_numbers-flip a b = ground arith

strncmp-flip : (n : ℕ) (a b : Bytes) → strncmp n b a ≡ opposite (strncmp n a b)
unfolding strncmp
strncmp-flip zero a b = refl
strncmp-flip (suc n) [] [] = refl
strncmp-flip (suc n) [] (y ∷ b) = refl
strncmp-flip (suc n) (x ∷ a) [] = refl
strncmp-flip (suc n) (x ∷ a) (y ∷ b) = ground (arith, strncmp-flip n a b)

shared_same : (a b : ℕ) → (if ltb b a then b else a) ≡ (if ltb a b then a else b)
shared_same a b = ground arith

compare_text-flip : (a b : Bytes) → compare_text b a ≡ opposite (compare_text a b)
unfolding compare_text
compare_text-flip a b = rw (shared_same (length a) (length b)) (
    or_else-flip _ _ _ _
      (strncmp-flip (if ltb (length a) (length b) then length a else length b) a b)
      (compare_numbers-flip (length a) (length b)))

by_kind-flip :
    (p q : Bool) (by_value by_text : Sign)
    → by_kind q p (opposite by_value) (opposite by_text) ≡ opposite (by_kind p q by_value by_text)
by_kind-flip true true by_value by_text = refl
by_kind-flip true false by_value by_text = refl
by_kind-flip false true by_value by_text = refl
by_kind-flip false false by_value by_text = refl

compare_identifier-flip : (a b : Bytes) → compare_identifier b a ≡ opposite (compare_identifier a b)
unfolding compare_identifier
compare_identifier-flip a b =
    rw (compare_numbers-flip (parse_number a).1 (parse_number b).1, compare_text-flip a b)
      (by_kind-flip (pre_is_numeric a) (pre_is_numeric b) _ _)

compare_identifiers-flip :
    (a b : List Bytes) → compare_identifiers b a ≡ opposite (compare_identifiers a b)
unfolding compare_identifiers
compare_identifiers-flip [] [] = refl
compare_identifiers-flip [] (y ∷ b) = refl
compare_identifiers-flip (x ∷ a) [] = refl
compare_identifiers-flip (x ∷ a) (y ∷ b) =
    or_else-flip _ _ _ _ (compare_identifier-flip x y) (compare_identifiers-flip a b)

compare_prerelease-flip :
    (a b : Option Bytes) → compare_prerelease b a ≡ opposite (compare_prerelease a b)
unfolding compare_prerelease
compare_prerelease-flip none none = refl
compare_prerelease-flip none (some b) = refl
compare_prerelease-flip (some a) none = refl
compare_prerelease-flip (some a) (some b) = compare_identifiers-flip (identifiers a) (identifiers b)

compare_parsed-flip : (a b : Option Semver) → compare_parsed b a ≡ opposite (compare_parsed a b)
unfolding compare_parsed
compare_parsed-flip none none = refl
compare_parsed-flip none (some b) = refl
compare_parsed-flip (some a) none = refl
compare_parsed-flip (some a) (some b) =
    or_else-flip _ _ _ _ (compare_numbers-flip a.major b.major) (
      or_else-flip _ _ _ _ (compare_numbers-flip a.minor b.minor) (
        or_else-flip _ _ _ _ (compare_numbers-flip a.patch b.patch)
          (compare_prerelease-flip a.pre b.pre)))

-- The two orders of asking agree: a is below b exactly where b is above a, and they are equal or not
-- whichever is asked first.
pub version_compare-flip :
    (a b : Option Bytes) → version_compare b a ≡ opposite (version_compare a b)
unfolding version_compare
version_compare-flip a b = compare_parsed-flip (semver_parse a) (semver_parse b)

compare_numbers_self : (n : ℕ) → compare_numbers n n ≡ same
compare_numbers_self n = ground arith

none_never_above : (parsed : Option Semver) → compare_parsed none parsed ≢ above
unfolding compare_parsed
none_never_above none e = cc
none_never_above (some right) e = cc

-- A string that does not parse is never above another, so a garbled tag never looks like an upgrade.
pub garbled_never_above : (a b : Option Bytes) → semver_parse a ≡ none → version_compare a b ≢ above
unfolding version_compare
garbled_never_above a b garbled = rw garbled (none_never_above (semver_parse b))

-- A prerelease is below the release of the same three numbers.
pub prerelease_below_release :
    (a b : Option Bytes) (left right : Semver) (pre : Bytes)
    → semver_parse a ≡ some left
    → semver_parse b ≡ some right
    → left ≡ record right { pre = some pre }
    → right.pre ≡ none
    → version_compare a b ≡ below
unfolding version_compare compare_parsed compare_prerelease
prerelease_below_release a b left right pre p q e release =
    rw
      (
        p,
        q,
        e,
        release,
        compare_numbers_self right.major,
        compare_numbers_self right.minor,
        compare_numbers_self right.patch,
      )
      refl
