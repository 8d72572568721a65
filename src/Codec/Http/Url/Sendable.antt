-- ===== src/Codec/Http/Url/Sendable.antt =====
-- A URL that codec/http.c accepts can be sent: it cannot break the request's lines.
use mathlib.Core.Option.{some-injective, none-ne-some}
use mathlib.Core.Bool.{false≢true}
use inkwell.Prelude.{
  ℕ, zero, suc, ◌+◌, ◌-◌, ◌≤◌, ◌<◌, ◌≡◌, refl, sym, subst, arith, Bool, true, false, ◌&&◌, ◌||◌,
  not, Option, none, some, [], ◌∷◌, ◌++◌, Bytes, length, get_or, take, drop, ltb, leb, ◌==◌,
  if◌then◌else◌, Bool-cases, inl, inr, past_test, which_branch, neither, ltb→le,
}
use inkwell.Codec.Http.Head.{equal_nocase, contains}
use inkwell.Codec.Http.Url.{
  url_max, host_max, HttpUrl, url_byte_ok, url_bytes_ok, length_until, find_byte, with_slash,
  set_target, port_loop, in_range, url_port, literal_ok, with_port, default_port, with_host,
  literal_port, with_literal, parse_literal, parse_name, parse_authority, text_https, text_http,
  colon_slashes, url_parse, scheme_len, relative, up_to_slash, url_resolve,
}

-- No blank, control or DEL, neither in the host nor in the target; a host and a port; a target that
-- begins with a slash; and both fit their buffers.
pub record IsSendable (u : HttpUrl) : Type 0 where
  pub host_ok : url_bytes_ok u.host ≡ true
  pub some_host : 0 < length u.host
  pub host_fits : length u.host < host_max
  pub some_port : 0 < u.port
  pub port_fits : u.port ≤ 65535
  pub target_ok : url_bytes_ok u.target ≡ true
  pub slash : get_or u.target 0 0 ≡ 47
  pub target_fits : length u.target < url_max

pub both_ok : (b c : Bool) → (if b then c else false) ≡ true → (b ≡ true) × (c ≡ true)
both_ok true c e = (refl, e)
both_ok false c e = absurd (false≢true e)

url_bytes_ok-take :
    (n : ℕ) (text : Bytes) → url_bytes_ok text ≡ true → url_bytes_ok (take n text) ≡ true
unfolding url_bytes_ok
url_bytes_ok-take zero text e = refl
url_bytes_ok-take (suc n) [] e = refl
url_bytes_ok-take (suc n) (c ∷ text) e =
    let (first, rest) = both_ok (url_byte_ok c) (url_bytes_ok text) e in
    rw (first, url_bytes_ok-take n text rest) refl

url_bytes_ok-drop :
    (n : ℕ) (text : Bytes) → url_bytes_ok text ≡ true → url_bytes_ok (drop n text) ≡ true
unfolding url_bytes_ok
url_bytes_ok-drop zero text e = e
url_bytes_ok-drop (suc n) [] e = refl
url_bytes_ok-drop (suc n) (c ∷ text) e =
    let (first, rest) = both_ok (url_byte_ok c) (url_bytes_ok text) e in
    url_bytes_ok-drop n text rest

slashed :
    (text : Bytes)
    → url_bytes_ok text ≡ true
    → (url_bytes_ok (with_slash text) ≡ true) × (get_or (with_slash text) 0 0 ≡ 47)
unfolding url_bytes_ok
slashed [] e = (refl, refl)
slashed (c ∷ text) e = elim (Bool-cases (c == 47)) [
  | inl there ↦ rw there (e, ground arith)
  | inr other ↦ rw other (e, refl)
]

is_true : (b : Bool) → not b ≡ false → b ≡ true
is_true true e = refl
is_true false e = absurd (false≢true (sym e))

-- What is known of a URL before its target.
abbrev IsAddressed : HttpUrl → Type 0
IsAddressed u =
    (url_bytes_ok u.host ≡ true)
    × (0 < length u.host)
    × (length u.host < host_max)
    × (0 < u.port)
    × (u.port ≤ 65535)

set_target-IsSendable :
    (u v : HttpUrl) (rest : Bytes) → IsAddressed u → set_target u rest ≡ some v → IsSendable v
unfolding set_target
set_target-IsSendable u v rest (host, some_host, host_fits, some_port, port_fits) e =
    let text = take (length_until (35 ∷ []) rest) rest in
    let target = with_slash text in
    let (fine, fits) =
      past_test (not (url_bytes_ok rest))
        (if ltb url_max (length target + 1) then none else some (record u { target = target })) v
        e in
    let (short, same) =
      past_test (ltb url_max (length target + 1)) (some (record u { target = target })) v fits in
    let (clean, slash) =
      slashed text (url_bytes_ok-take (length_until (35 ∷ []) rest) rest (is_true _ fine)) in
    subst IsSendable (some-injective (record u { target = target }) v same) (record {
      host_ok = host;
      some_host = some_host;
      host_fits = host_fits;
      some_port = some_port;
      port_fits = port_fits;
      target_ok = clean;
      slash = slash;
      target_fits = omega (arith, ltb→le _ _ short);
    })

in_range_port : (port : Option ℕ) (n : ℕ) → in_range port ≡ some n → (0 < n) × (n ≤ 65535)
in_range_port none n e = absurd (none-ne-some n e)
in_range_port (some p) n e =
    let (fine, same) = past_test (p == 0 || ltb 65535 p) (some p) n e in
    let value : p ≡ n = some-injective p n same in
    let (some_port, fits) = neither (p == 0) (ltb 65535 p) fine in
    subst (λ (t : ℕ). (0 < t) × (t ≤ 65535)) value (ground arith, ltb→le _ _ fits)

default_range : (tls : Bool) → (0 < default_port tls) × (default_port tls ≤ 65535)
default_range true = (omega arith, omega arith)
default_range false = (omega arith, omega arith)

url_port_range :
    (tls : Bool) (text : Option Bytes) (n : ℕ)
    → url_port (default_port tls) text ≡ some n
    → (0 < n) × (n ≤ 65535)
unfolding url_port
url_port_range tls none n e =
    subst (λ (t : ℕ). (0 < t) × (t ≤ 65535)) (some-injective (default_port tls) n e)
      (default_range tls)
url_port_range tls (some []) n e =
    subst (λ (t : ℕ). (0 < t) × (t ≤ 65535)) (some-injective (default_port tls) n e)
      (default_range tls)
url_port_range tls (some (c ∷ text)) n e =
    in_range_port (port_loop 0 (c ∷ text)) n
      (past_test (ltb 5 (length (c ∷ text))) (in_range (port_loop 0 (c ∷ text))) n e).1

with_port-IsSendable :
    (tls : Bool) (host rest : Bytes) (port : Option ℕ) (v : HttpUrl)
    → url_bytes_ok host ≡ true
    → 0 < length host
    → length host < host_max
    → ((n : ℕ) → port ≡ some n → (0 < n) × (n ≤ 65535))
    → with_port tls host rest port ≡ some v
    → IsSendable v
with_port-IsSendable tls host rest none v clean some_host fits range e = absurd (none-ne-some v e)
with_port-IsSendable tls host rest (some port) v clean some_host fits range e =
    let (some_port, small) = range port refl in
    set_target-IsSendable (record { tls = tls; host = host; port = port; target = [] }) v rest
      (clean, some_host, fits, some_port, small) e

with_host-IsSendable :
    (tls : Bool) (host : Bytes) (port_text : Option Bytes) (rest : Bytes) (v : HttpUrl)
    → url_bytes_ok host ≡ true
    → with_host tls host port_text rest ≡ some v
    → IsSendable v
unfolding with_host
with_host-IsSendable tls host port_text rest v clean e =
    let port = url_port (default_port tls) port_text in
    let (sized, parsed) =
      past_test (length host == 0 || leb host_max (length host)) (with_port tls host rest port) v
        e in
    let (some_host, fits) = neither (length host == 0) (leb host_max (length host)) sized in
    with_port-IsSendable tls host rest port v clean (ground arith) (ground arith)
      (url_port_range tls port_text) parsed

with_literal-IsSendable :
    (tls : Bool) (host rest : Bytes) (port : Option (Option Bytes)) (v : HttpUrl)
    → url_bytes_ok host ≡ true
    → with_literal tls host rest port ≡ some v
    → IsSendable v
with_literal-IsSendable tls host rest none v clean e = absurd (none-ne-some v e)
with_literal-IsSendable tls host rest (some port_text) v clean e =
    elim (which_branch (literal_ok host) (with_host tls host port_text rest) none (some v) e) [
      | inl (literal, found) ↦ with_host-IsSendable tls host port_text rest v clean found
      | inr (bad, refused) ↦ absurd (none-ne-some v refused)
    ]

parse_literal-IsSendable :
    (tls : Bool) (authority rest : Bytes) (close : Option ℕ) (v : HttpUrl)
    → url_bytes_ok authority ≡ true
    → parse_literal tls authority rest close ≡ some v
    → IsSendable v
parse_literal-IsSendable tls authority rest none v clean e = absurd (none-ne-some v e)
parse_literal-IsSendable tls authority rest (some close) v clean e =
    with_literal-IsSendable tls (take (close - 1) (drop 1 authority)) rest
      (literal_port (drop (close + 1) authority)) v
      (url_bytes_ok-take (close - 1) (drop 1 authority) (url_bytes_ok-drop 1 authority clean)) e

parse_name-IsSendable :
    (tls : Bool) (authority rest : Bytes) (colon : Option ℕ) (v : HttpUrl)
    → url_bytes_ok authority ≡ true
    → parse_name tls authority rest colon ≡ some v
    → IsSendable v
parse_name-IsSendable tls authority rest none v clean e =
    with_host-IsSendable tls authority none rest v clean e
parse_name-IsSendable tls authority rest (some colon) v clean e =
    with_host-IsSendable tls (take colon authority) (some (drop (colon + 1) authority)) rest v
      (url_bytes_ok-take colon authority clean) e

parse_authority-IsSendable :
    (tls : Bool) (rest : Bytes) (v : HttpUrl) → parse_authority tls rest ≡ some v → IsSendable v
unfolding parse_authority
parse_authority-IsSendable tls rest v e =
    let len = length_until (47 ∷ 63 ∷ 35 ∷ []) rest in
    let authority = take len rest in
    let literal = parse_literal tls authority (drop len rest) (find_byte 93 authority) in
    let name = parse_name tls authority (drop len rest) (find_byte 58 authority) in
    let (fine, parsed) =
      past_test (len == 0 || not (url_bytes_ok authority) || contains authority 64)
        (if get_or authority 0 0 == 91 then literal else name) v e in
    let (front, user) =
      neither (len == 0 || not (url_bytes_ok authority)) (contains authority 64) fine in
    let clean = is_true _ (neither (len == 0) (not (url_bytes_ok authority)) front).1 in
    elim (which_branch (get_or authority 0 0 == 91) literal name (some v) parsed) [
      | inl (bracket, found) ↦
          parse_literal-IsSendable tls authority (drop len rest) (find_byte 93 authority) v clean
            found
      | inr (plain, found) ↦
          parse_name-IsSendable tls authority (drop len rest) (find_byte 58 authority) v clean found
    ]

-- A URL that is accepted has a host of 1 to 255 bytes, a port from 1 to 65535, and a target that
-- begins with a slash and fits its buffer; and no blank, control byte or DEL is in the host or the
-- target, so that neither can end a line of the request.
pub url_parse-IsSendable : (url : Bytes) (v : HttpUrl) → url_parse url ≡ some v → IsSendable v
unfolding url_parse
url_parse-IsSendable url v e =
    let secure = parse_authority true (drop 8 url) in
    let plain = parse_authority false (drop 7 url) in
    let is_plain = equal_nocase (take 7 url) (text_http ++ colon_slashes) in
    elim (which_branch (equal_nocase (take 8 url) (text_https ++ colon_slashes)) secure
      (if is_plain then plain else none) (some v) e) [
        | inl (scheme, found) ↦ parse_authority-IsSendable true (drop 8 url) v found
        | inr (other, rest) ↦ elim (which_branch is_plain plain none (some v) rest) [
          | inl (scheme, found) ↦ parse_authority-IsSendable false (drop 7 url) v found
          | inr (neither_one, found) ↦ absurd (none-ne-some v found)
        ]
      ]

-- A result that is a URL is one that can be sent.
abbrev OnlySendable : Option HttpUrl → Type 0
OnlySendable found = (v : HttpUrl) → found ≡ some v → IsSendable v

either-OnlySendable :
    (b : Bool) (x y : Option HttpUrl)
    → OnlySendable x
    → OnlySendable y
    → OnlySendable (if b then x else y)
either-OnlySendable true x y this that = this
either-OnlySendable false x y this that = that

none-OnlySendable : OnlySendable none
none-OnlySendable v e = absurd (none-ne-some v e)

base-OnlySendable : (base : HttpUrl) → IsSendable base → OnlySendable (some base)
base-OnlySendable base sendable v e = subst IsSendable (some-injective base v e) sendable

retarget-OnlySendable :
    (base : HttpUrl) (rest : Bytes) → IsSendable base → OnlySendable (set_target base rest)
retarget-OnlySendable base rest s v e =
    set_target-IsSendable base v rest
      (s.host_ok, s.some_host, s.host_fits, s.some_port, s.port_fits) e

resolved-OnlySendable :
    (base : HttpUrl) (location : Bytes) → IsSendable base → OnlySendable (url_resolve base location)
unfolding url_resolve
resolved-OnlySendable base location s =
    let absolute = (if base.tls then text_https else text_http) ++ (58 ∷ location) in
    let path = take (length_until (63 ∷ []) base.target) base.target in
    let merged = (if get_or location 0 0 == 63 then path else up_to_slash path) ++ location in
    either-OnlySendable (length location == 0) none _ none-OnlySendable (
      either-OnlySendable
        (ltb 0 (scheme_len true location) && get_or location (scheme_len true location) 0 == 58)
        (url_parse location) _ (url_parse-IsSendable location)
        (either-OnlySendable (get_or location 0 0 == 47 && get_or location 1 0 == 47) _ _
          (either-OnlySendable (leb (url_max + 8) (length absolute)) none (url_parse absolute)
            none-OnlySendable (url_parse-IsSendable absolute))
          (either-OnlySendable (get_or location 0 0 == 35) (some base) _ (base-OnlySendable base s)
            (either-OnlySendable (get_or location 0 0 == 47) (set_target base location)
              (relative base location) (retarget-OnlySendable base location s)
              (either-OnlySendable (leb url_max (length merged)) none (set_target base merged)
                none-OnlySendable (retarget-OnlySendable base merged s))))))

-- What a redirect from such a URL leads to, if it is accepted, is such a URL.
pub url_resolve-IsSendable :
    (base v : HttpUrl) (location : Bytes)
    → IsSendable base
    → url_resolve base location ≡ some v
    → IsSendable v
url_resolve-IsSendable base v location s e = resolved-OnlySendable base location s v e
