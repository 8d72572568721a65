-- ===== src/Codec/Zip/Member.antt =====
-- The member that a search of a ZIP directory finds.
use inkwell.Prelude.{ℕ, suc, ◌+◌, ◌≤◌, ◌<◌, ◌≡◌, Bool, true, false, Bytes, length, ◌==◌}
use inkwell.Codec.Zip.{
  ZipEntry, ZipSearch, member_found, absent, malformed, u32_sentinel, zip_u32, zip_basename,
  entry_size, entry_at, is_entry, entry_matches,
}

-- `n` entries from `at` on that are whole and have another name, up to `target`.
pub data Passing (central basename : Bytes) : ℕ → ℕ → ℕ → Type 0 where
  arrived : (at : ℕ) → Passing central basename 0 at at
  passed :
      (n at target : ℕ)
      → is_entry central at ≡ true
      → entry_matches central at basename ≡ false
      → Passing central basename n (at + entry_size central at) target
      → Passing central basename (suc n) at target

-- What the search found: the entry behind `n` others, with its bytes inside the directory.
pub record IsMember (central basename : Bytes) (entries from_at : ℕ) (e : ZipEntry) : Type 0 where
  pub passed_over : ℕ
  pub target : ℕ
  pub in_count : passed_over < entries
  pub walk : Passing central basename passed_over from_at target
  pub signature : zip_u32 central target ≡ 0x02014B50
  pub inside : target + entry_size central target ≤ length central
  pub entry : e ≡ entry_at central target
  pub named : zip_basename e.name ≡ basename
  pub addressed : (e.local_header_offset == u32_sentinel) ≡ false

is_found : ZipSearch → Bool
is_found (member_found e) = true
is_found absent = false
is_found malformed = false

found_entry : ZipEntry → ZipSearch → ZipEntry
found_entry d (member_found e) = e
found_entry d absent = d
found_entry d malformed = d
