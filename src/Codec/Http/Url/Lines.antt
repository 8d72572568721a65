-- ===== src/Codec/Http/Url/Lines.antt =====
-- The lines of a request of codec/http.c, as they are on the wire.
use inkwell.Prelude.{
  ℕ, zero, suc, ◌+◌, ◌-◌, ◌*◌, ◌/◌, ◌%◌, ◌≤◌, ◌<◌, ◌≡◌, ◌⊎◌, inl, inr, refl, ap, ap₂, sym, ◌∙◌,
  arith, Bool, true, false, some, List, [], ◌∷◌, ◌++◌, Bytes, All, length, get_or, ◌==◌, ==_iff,
  if◌then◌else◌, Bool-cases,
}
use mathlib.Core.Bool.{false≢true}
use inkwell.Codec.Http.Head.{contains, lines_of}
use inkwell.Codec.Http.Url.{HttpUrl, default_port}
use inkwell.Codec.Http.Url.Sendable.{IsSendable}
use inkwell.Codec.Http.Url.Request.{
  HttpMethod, http_get, http_head, http_post, method_name, decimal_front, port_text, bracketed_host,
  with_cr, and_end, request_format, request_format-with_cr,
}

abbrev method_word : HttpMethod → Bytes
method_word http_get = b'G' ∷ b'E' ∷ b'T' ∷ []
method_word http_head = b'H' ∷ b'E' ∷ b'A' ∷ b'D' ∷ []
method_word http_post = b'P' ∷ b'O' ∷ b'S' ∷ b'T' ∷ []

abbrev http_1_1 : Bytes
http_1_1 = b'H' ∷ b'T' ∷ b'T' ∷ b'P' ∷ b'/' ∷ b'1' ∷ b'.' ∷ b'1' ∷ []

abbrev host_field : Bytes
host_field = b'H' ∷ b'o' ∷ b's' ∷ b't' ∷ b':' ∷ b' ' ∷ []

abbrev close_field : Bytes
close_field =
    b'C' ∷ b'o' ∷ b'n' ∷ b'n' ∷ b'e' ∷ b'c' ∷ b't' ∷ b'i' ∷ b'o' ∷ b'n' ∷ b':' ∷ b' ' ∷ b'c' ∷ b'l'
    ∷ b'o' ∷ b's' ∷ b'e' ∷ []

abbrev pub wire_lines : HttpMethod → HttpUrl → Bytes → List Bytes → List Bytes
wire_lines method url authority headers =
    (method_word method ++ (b' ' ∷ url.target ++ (b' ' ∷ http_1_1)))
    ∷ (host_field ++ authority)
    ∷ close_field
    ∷ and_end headers

abbrev pub HasColon : Bytes → Type 0
HasColon host = (before : Bytes) × (after : Bytes) × (host ≡ before ++ (b':' ∷ after))

-- The port of the scheme.
abbrev pub IsUsual : Bool → ℕ → Type 0
IsUsual tls port = ((tls ≡ true) × (port ≡ 443)) ⊎ ((tls ≡ false) × (port ≡ 80))

abbrev pub IsDigit : ℕ → Type 0
IsDigit c = (b'0' ≤ c) × (c ≤ b'9')

-- The number that digits stand for, behind `value`.
abbrev pub digits_value : ℕ → Bytes → ℕ
digits_value value [] = value
digits_value value (c ∷ digits) = digits_value (value * 10 + (c - b'0')) digits

-- Decimal digits of a number, the first of them not 0.
pub record IsDecimal (n : ℕ) (digits : Bytes) : Type 0 where
  pub all_digits : All IsDigit digits
  pub value : digits_value 0 digits ≡ n
  pub leading : b'0' < get_or digits 0 0

-- What names the host: in brackets if it has a colon, with the port if it is not the scheme's.
pub record IsAuthority (url : HttpUrl) (authority : Bytes) : Type 0 where
  pub host_part : Bytes
  pub port_part : Bytes
  pub joined : authority ≡ host_part ++ port_part
  pub bracketed : HasColon url.host → host_part ≡ b'[' ∷ url.host ++ (b']' ∷ [])
  pub bare : ¬ HasColon url.host → host_part ≡ url.host
  pub usual : IsUsual url.tls url.port → port_part ≡ []
  pub unusual :
      ¬ IsUsual url.tls url.port
      → (digits : Bytes) × (port_part ≡ b':' ∷ digits) × IsDecimal url.port digits

colon_found : (host : Bytes) → contains host 58 ≡ true → HasColon host
unfolding contains
colon_found [] e = absurd (false≢true e)
colon_found (c ∷ host) e = elim (Bool-cases (c == 58)) [
  | inl here ↦ ([], host, ap (λ (d : ℕ). d ∷ host) ((==_iff c 58).0 here))
  | inr not_here ↦
      let later : contains host 58 ≡ true =
        sym (ap (λ b. if b then true else contains host 58) not_here) ∙ e in
      let (before, after, same) = colon_found host later in
      (c ∷ before, after, ap (λ (t : Bytes). c ∷ t) same)
]

contains_colon : (before after : Bytes) → contains (before ++ (58 ∷ after)) 58 ≡ true
unfolding contains
contains_colon [] after = refl
contains_colon (c ∷ before) after = elim (Bool-cases (c == 58)) [
  | inl here ↦ rw here refl
  | inr not_here ↦ rw not_here (contains_colon before after)
]

no_colon : (host : Bytes) → contains host 58 ≡ false → ¬ HasColon host
no_colon host e (before, after, same) =
    false≢true (sym e ∙ ap (λ (t : Bytes). contains t 58) same ∙ contains_colon before after)

port-IsUsual : (tls : Bool) (port : ℕ) → (port == default_port tls) ≡ true → IsUsual tls port
port-IsUsual true port e = inl (refl, (==_iff port 443).0 e)
port-IsUsual false port e = inr (refl, (==_iff port 80).0 e)

port_unusual : (tls : Bool) (port : ℕ) → (port == default_port tls) ≡ false → ¬ IsUsual tls port
port_unusual tls port e (inl (secure, same)) =
    false≢true (sym e ∙ ap₂ (λ (t : Bool) (n : ℕ). n == default_port t) secure same)
port_unusual tls port e (inr (plain, same)) =
    false≢true (sym e ∙ ap₂ (λ (t : Bool) (n : ℕ). n == default_port t) plain same)

-- A number of so many digits.
abbrev Fits : ℕ → ℕ → Type 0
Fits zero n = n ≡ 0
Fits (suc digits) n = Fits digits (n / 10)

decimal_digits :
    (digits n : ℕ) (text : Bytes) → All IsDigit text → All IsDigit (decimal_front digits n text)
unfolding decimal_front
decimal_digits zero n text all = all
decimal_digits (suc digits) n text all =
    let digit : IsDigit (48 + n % 10) = (omega arith, omega arith) in
    elim (Bool-cases (n / 10 == 0)) [
      | inl last ↦ rw last (digit, all)
      | inr more ↦ rw more (decimal_digits digits (n / 10) ((48 + n % 10) ∷ text) (digit, all))
    ]

decimal_value :
    (digits n : ℕ) (text : Bytes)
    → Fits digits n
    → digits_value 0 (decimal_front digits n text) ≡ digits_value n text
unfolding decimal_front
decimal_value zero n text fits = ap (λ (m : ℕ). digits_value m text) (sym fits)
decimal_value (suc digits) n text fits = elim (Bool-cases (n / 10 == 0)) [
  | inl last ↦
      let none_above = (==_iff (n / 10) 0).0 last in
      let same : 0 + (48 + n % 10 - 48) ≡ n = omega arith in
      rw last (ap (λ (m : ℕ). digits_value m text) same)
  | inr more ↦
      let same : n / 10 * 10 + (48 + n % 10 - 48) ≡ n = omega arith in
      rw more (
        decimal_value digits (n / 10) ((48 + n % 10) ∷ text) fits
        ∙ ap (λ (m : ℕ). digits_value m text) same)
]

decimal_leading :
    (digits n : ℕ) (text : Bytes)
    → Fits digits n
    → 0 < n
    → 48 < get_or (decimal_front digits n text) 0 0
unfolding decimal_front
decimal_leading zero n text fits some_value = absurd (omega arith)
decimal_leading (suc digits) n text fits some_value = elim (Bool-cases (n / 10 == 0)) [
  | inl last ↦ let none_above = (==_iff (n / 10) 0).0 last in rw last (omega arith)
  | inr more ↦
      let above : 0 < n / 10 = ground arith in
      rw more (decimal_leading digits (n / 10) ((48 + n % 10) ∷ text) fits above)
]

decimal_front-IsDecimal : (n : ℕ) → 0 < n → n ≤ 65535 → IsDecimal n (decimal_front 5 n [])
decimal_front-IsDecimal n some_value small =
    let fits : Fits 5 n = omega arith in
    record {
      all_digits = decimal_digits 5 n [] tt;
      value = decimal_value 5 n [] fits;
      leading = decimal_leading 5 n [] fits some_value;
    }

host_line-IsAuthority :
    (url : HttpUrl) → IsSendable url → IsAuthority url (bracketed_host url.host ++ port_text url)
unfolding bracketed_host port_text
host_line-IsAuthority url s = record {
  host_part = bracketed_host url.host;
  port_part = port_text url;
  joined = refl;
  bracketed = λ colon. elim (Bool-cases (contains url.host 58)) [
    | inl here ↦ rw here refl
    | inr no_such ↦ absurd (no_colon url.host no_such colon)
  ];
  bare = λ lacks. elim (Bool-cases (contains url.host 58)) [
    | inl here ↦ absurd (lacks (colon_found url.host here))
    | inr no_such ↦ rw no_such refl
  ];
  usual = λ is_usual. elim (Bool-cases (url.port == default_port url.tls)) [
    | inl here ↦ ap (λ b. if b then [] else 58 ∷ decimal_front 5 url.port []) here
    | inr other ↦ absurd (port_unusual url.tls url.port other is_usual)
  ];
  unusual = λ not_usual. elim (Bool-cases (url.port == default_port url.tls)) [
    | inl here ↦ absurd (not_usual (port-IsUsual url.tls url.port here))
    | inr other ↦ (
      decimal_front 5 url.port [],
      ap (λ b. if b then [] else 58 ∷ decimal_front 5 url.port []) other,
      decimal_front-IsDecimal url.port s.some_port s.port_fits,
    )
  ];
}

method_word-name : (method : HttpMethod) → method_name method ≡ method_word method
unfolding method_name
method_word-name http_get = refl
method_word-name http_head = refl
method_word-name http_post = refl

-- The request for a URL that can be sent, where it is formatted at all, fits the buffer with its NUL,
-- and its lines are: the method, the target and HTTP/1.1; the host, in brackets if it has a colon,
-- with a colon and the decimal port if that is not 443 under TLS or 80 without; the close; each
-- header; and an empty line. Each ends with a CR, and no part of the URL or a header makes a line of
-- its own.
pub request_format-lines :
    (cap : ℕ) (method : HttpMethod) (url : HttpUrl) (headers : List Bytes) (text : Bytes)
    → IsSendable url
    → request_format cap method url headers ≡ some text
    → (authority : Bytes) × IsAuthority url authority
      × (lines_of text ≡ with_cr (wire_lines method url authority headers))
      × (length text < cap)
request_format-lines cap method url headers text s e =
    let (lines, short) = request_format-with_cr cap method url headers text s e in
    (
      bracketed_host url.host ++ port_text url,
      host_line-IsAuthority url s,
      lines
          ∙ ap
              (λ (word : Bytes). with_cr (
                (word ++ (b' ' ∷ url.target ++ (b' ' ∷ http_1_1)))
                ∷ (host_field ++ (bracketed_host url.host ++ port_text url))
                ∷ close_field
                ∷ and_end headers))
              (method_word-name method),
      short,
    )
