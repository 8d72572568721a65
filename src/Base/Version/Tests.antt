-- ===== src/Base/Version/Tests.antt =====
-- Runs of base/version.c on a few tags.
use inkwell.Prelude.{inl, arith, ◌≢◌, ◌≡◌, refl, Option, none, some, [], ◌∷◌, Bytes}
use inkwell.Base.Version.{Semver, semver_parse, above, version_compare}
use inkwell.Base.Version.Refusals.{IsStray, version_compare_dangling}
use inkwell.Base.Version.Order.{opposite, version_compare-flip}

-- "v1.2-rc.1", "1.2.0" and "1.2.0+".
abbrev a_candidate : Option Bytes
a_candidate = some (b'v' ∷ b'1' ∷ b'.' ∷ b'2' ∷ b'-' ∷ b'r' ∷ b'c' ∷ b'.' ∷ b'1' ∷ [])

abbrev a_release : Option Bytes
a_release = some (b'1' ∷ b'.' ∷ b'2' ∷ b'.' ∷ b'0' ∷ [])

abbrev a_garbled : Option Bytes
a_garbled = some (b'1' ∷ b'.' ∷ b'2' ∷ b'.' ∷ b'0' ∷ b'+' ∷ [])

abbrev the_release : Semver
the_release = record { major = 1; minor = 2; patch = 0; pre = none }

abbrev the_candidate : Semver
the_candidate = record {
  major = 1;
  minor = 2;
  patch = 0;
  pre = some (b'r' ∷ b'c' ∷ b'.' ∷ b'1' ∷ []);
}

a_candidate_run : semver_parse a_candidate ≡ some the_candidate
unfolding semver_parse
a_candidate_run = refl

a_release_run : semver_parse a_release ≡ some the_release
unfolding semver_parse
a_release_run = refl

a_garbled_run : semver_parse a_garbled ≡ none
unfolding semver_parse
a_garbled_run = refl

version_compare-flip_example :
    version_compare a_release a_candidate ≡ opposite (version_compare a_candidate a_release)
version_compare-flip_example = version_compare-flip a_candidate a_release

plus-IsStray : IsStray b'+'
plus-IsStray = (
  inl (omega arith),
  inl (omega arith),
  inl (omega arith),
  λ e. omega arith,
  λ e. omega arith,
  λ e. omega arith,
)

version_compare_dangling_example :
    (semver_parse a_garbled ≡ none) × (version_compare a_garbled a_release ≢ above)
version_compare_dangling_example =
    version_compare_dangling (b'1' ∷ b'.' ∷ b'2' ∷ b'.' ∷ b'0' ∷ []) b'+' a_release plus-IsStray
