-- ===== src/Codec/Json/Values.antt =====
-- codec/json.c: a value that is a string is read or skipped.
use mathlib.Core.Bool.{false≢true}
use inkwell.Prelude.{ℕ, ◌≡◌, refl, ap, ◌∙◌, Bool, true, false, drop, ◌==◌, ==_iff}
use inkwell.Codec.Json.{
  Json, json_spaced, byte_of, moved, string_at, read_string, skip_from, skip_value,
}
use inkwell.Codec.Json.Strings.{StringRead, skip_string_body, read_string_body}
use inkwell.Codec.Json.Skipping.{skip_string_body-read}

skip_from-read :
    (room : ℕ) (here : Json) (quote : Bool) (s : StringRead)
    → (quote ≡ true
        → skip_from (byte_of here.rest) here ≡ moved here (skip_string_body (drop 1 here.rest)))
    → (s.success ≡ true → skip_string_body (drop 1 here.rest) ≡ (true, s.rest))
    → (string_at quote here s).0 ≡ true
    → skip_from (byte_of here.rest) here ≡ (true, (string_at quote here s).1)
skip_from-read room here true s quoted skipped success =
    quoted refl ∙ ap (moved here) (skipped success)
skip_from-read room here false s quoted skipped success = absurd (false≢true success)

-- Where a string is read from a document, with any room for its text, skipping the value there
-- instead also succeeds, and leaves the same cursor: no text, escape or cut of the string makes the
-- two walks end apart.
pub skip_value-read_string :
    (json : Json) (room : ℕ)
    → (read_string json room).0 ≡ true
    → skip_value json ≡ (true, (read_string json room).1)
unfolding skip_value read_string
skip_value-read_string json room success =
    let here = json_spaced json in
    let body = drop 1 here.rest in
    skip_from-read room here (byte_of here.rest == 34) (read_string_body room body)
      (λ quote. ap (λ first. skip_from first here) ((==_iff (byte_of here.rest) 34).0 quote))
      (skip_string_body-read room body) success
