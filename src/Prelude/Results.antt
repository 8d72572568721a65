-- ===== src/Prelude/Results.antt =====
-- What a fallible function returns: a value, or a negative errno.

pub data Errno : Type 0 where
  einval ebadmsg enospc enobufs : Errno

pub data Result {ℓ} (A : Type ℓ) : Type ℓ where
  ok : A → Result A
  err : Errno → Result A

infixl 5 ◌>>=◌
abbrev pub ◌>>=◌ {ℓ κ} : {A : Type ℓ} {B : Type κ} → Result A → (A → Result B) → Result B
ok a >>= f = f a
err e >>= f = err e
