-- ===== src/Prelude/Words.antt =====
-- Machine words as native numbers: a byte is a number below 256, the wrap of a word is written by
-- `%`, `x & (2^k - 1)` is `x % 2^k`, and `|` of operands that share no bit is a sum.
use Prim.Native.Nat.{ℕ, zero, suc, ◌+◌, ◌/◌, ◌%◌, ◌^◌, ◌<◌, bit_or}
use mathlib.Core.Path.{◌≡◌, refl, ap₂}
use mathlib.Core.Bool.{Bool, true, false, false≢true}
use mathlib.Core.List.{List, [], ◌∷◌}
use native.Mathlib.Omega.{arith}
use inkwell.Prelude.Tests.{◌==◌, ==_iff, if◌then◌else◌}

abbrev pub Bytes : Type 0
Bytes = List ℕ

abbrev pub IsByte : ℕ → Type 0
IsByte b = b < 256

abbrev pub u8 : ℕ → ℕ
u8 x = x % 256

abbrev pub u16 : ℕ → ℕ
u16 x = x % 65536

abbrev pub u32 : ℕ → ℕ
u32 x = x % 4294967296

-- `x & (2^k - 1)`
abbrev pub low_bits : ℕ → ℕ → ℕ
low_bits x k = x % 2 ^ k

-- `x >> k`
abbrev pub shr : ℕ → ℕ → ℕ
shr x k = x / 2 ^ k

-- Bit k of x: `(x >> k) & 1`.
abbrev pub bit : ℕ → ℕ → ℕ
bit x k = x / 2 ^ k % 2

-- A table: the test holds at every number below the bound.
unfoldable pub table_holds : (ℕ → Bool) → ℕ → Bool
table_holds test zero = true
table_holds test (suc last) =
    let below = table_holds test last in if test last then below else false

pub table_entry :
    (test : ℕ → Bool) (bound entry : ℕ)
    → table_holds test bound ≡ true
    → entry < bound
    → test entry ≡ true
unfolding table_holds
table_entry test zero entry holds small = absurd (omega arith)
table_entry test (suc last) entry holds small = ground (arith, table_entry test last entry)

top_bit_table : table_holds (λ x. bit_or x 0x80 == x + 128) 128 ≡ true
unfolding table_holds
top_bit_table = refl

pub set_top_bit : (x : ℕ) → x < 128 → bit_or x 0x80 ≡ x + 128
set_top_bit x h =
    (==_iff (bit_or x 0x80) (x + 128)).0
      (table_entry (λ y. bit_or y 0x80 == y + 128) 128 x top_bit_table h)

-- A `uint64_t`.
abbrev pub u64 : ℕ → ℕ
u64 x = x % 18446744073709551616

-- strcmp() is 0.
unfoldable pub same_bytes : Bytes → Bytes → Bool
same_bytes [] [] = true
same_bytes [] (y ∷ b) = false
same_bytes (x ∷ a) [] = false
same_bytes (x ∷ a) (y ∷ b) = let rest = same_bytes a b in if x == y then rest else false

both : (b c : Bool) → (if b then c else false) ≡ true → (b ≡ true) × (c ≡ true)
both true c e = (refl, e)
both false c e = absurd (false≢true e)

pub same_bytes-eq : (a b : Bytes) → same_bytes a b ≡ true → a ≡ b
unfolding same_bytes
same_bytes-eq [] [] e = refl
same_bytes-eq [] (y ∷ b) e = absurd (false≢true e)
same_bytes-eq (x ∷ a) [] e = absurd (false≢true e)
same_bytes-eq (x ∷ a) (y ∷ b) e =
    let (front, behind) = both (x == y) (same_bytes a b) e in
    ap₂ (λ (c : ℕ) (rest : Bytes). c ∷ rest) ((==_iff x y).0 front) (same_bytes-eq a b behind)
