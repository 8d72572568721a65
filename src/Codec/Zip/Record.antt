-- ===== src/Codec/Zip/Record.antt =====
-- The record at the end of a ZIP archive: which one is taken, and the directory it points to.
use mathlib.Core.Option.{some-injective, none-ne-some}
use inkwell.Prelude.{
  ℕ, zero, suc, ◌+◌, ◌-◌, ◌≤◌, ◌<◌, ◌≡◌, refl, sym, ap, arith, true, false, ◌||◌, none, some, Bytes,
  length, drop, ltb, ◌==◌, if◌then◌else◌, Bool-cases, ltb→le, ltb→lt, le→ltb, inl, inr, past_test,
  neither, which_branch, u64, length-drop,
}
use inkwell.Codec.Zip.{
  ZipEnd, eocd_size, u16_sentinel, u32_sentinel, zip_u16, zip_u32, is_record, record_at,
  find_end_loop, find_end, central_slice,
}

find_end_loop_last :
    (window : Bytes) (window_offset back top : ℕ)
    → back ≤ top
    → is_record window back ≡ true
    → ((b : ℕ) → back < b → b ≤ top → is_record window b ≡ false)
    → find_end_loop window window_offset top ≡ record_at window window_offset back
unfolding find_end_loop
find_end_loop_last window window_offset zero zero here found later = rw found refl
find_end_loop_last window window_offset (suc back) zero here found later = absurd (omega arith)
find_end_loop_last window window_offset back (suc top) here found later =
    elim (Bool-cases (ltb back (suc top))) [
      | inl below ↦ rw (later (suc top) (ltb→lt _ _ below) (omega arith)) (
          find_end_loop_last window window_offset back top (omega (arith, ltb→lt _ _ below)) found
            (λ b above under. later b above (omega arith)))
      | inr equal ↦
          let same : back ≡ suc top = omega (arith, ltb→le _ _ equal) in rw (← same, found) refl
    ]

-- The last place in the window that has the signature and a comment that reaches to the window's end
-- is the one that decides: what is found is what is read there.
pub find_end_last :
    (window : Bytes) (window_offset back : ℕ)
    → back + eocd_size ≤ length window
    → is_record window back ≡ true
    → ((b : ℕ) → back < b → b + eocd_size ≤ length window → is_record window b ≡ false)
    → find_end (some window) window_offset ≡ record_at window window_offset back
unfolding find_end
find_end_last window window_offset back here found later =
    rw (le→ltb (length window) eocd_size (omega arith)) (
      find_end_loop_last window window_offset back (length window - eocd_size) (omega arith) found
        (λ b above under. later b above (omega arith)))

record_at_precedes :
    (window : Bytes) (window_offset back : ℕ) (e : ZipEnd)
    → window_offset + back < 18446744073709551616
    → record_at window window_offset back ≡ some e
    → e.central_offset + e.central_size ≤ window_offset + back
unfolding record_at
record_at_precedes window window_offset back e small found =
    let entries = zip_u16 window (back + 10) in
    let size = zip_u32 window (back + 12) in
    let offset = zip_u32 window (back + 16) in
    let there : ZipEnd = record {
      central_offset = offset;
      central_size = size;
      entries = entries;
    } in
    let overlaps = ltb (u64 (window_offset + back)) (offset + size) in
    let (real, rest) =
      past_test (entries == u16_sentinel || size == u32_sentinel || offset == u32_sentinel)
        (if overlaps then none else some there) e found in
    let (precedes, read) = past_test overlaps (some there) e rest in
    let sizes =
      ap (λ (r : ZipEnd). r.central_offset + r.central_size) (some-injective there e read) in
    omega (arith, sizes, ltb→le _ _ precedes)

-- A position at which a record is read from a window whose end is at `top`.
abbrev ReadAt : Bytes → ℕ → ℕ → ZipEnd → Type 0
ReadAt window window_offset top e =
    (back : ℕ) × (back ≤ top)
    × (is_record window back ≡ true)
    × (record_at window window_offset back ≡ some e)

find_end_loop-ReadAt :
    (window : Bytes) (window_offset top : ℕ) (e : ZipEnd)
    → find_end_loop window window_offset top ≡ some e
    → ReadAt window window_offset top e
unfolding find_end_loop
find_end_loop-ReadAt window window_offset zero e found =
    elim (which_branch (is_record window 0) (record_at window window_offset 0) none (some e)
      found) [
        | inl (here, read) ↦ (0, omega arith, here, read)
        | inr (other, read) ↦ absurd (none-ne-some e read)
      ]
find_end_loop-ReadAt window window_offset (suc top) e found =
    elim (which_branch (is_record window (suc top)) (record_at window window_offset (suc top))
      (find_end_loop window window_offset top) (some e) found) [
        | inl (here, read) ↦ (suc top, omega arith, here, read)
        | inr (other, read) ↦
            let (back, below, here, at) = find_end_loop-ReadAt window window_offset top e read in
            (back, omega arith, here, at)
      ]

central_slice_fits :
    (e : ZipEnd) (window central : Bytes) (window_offset : ℕ)
    → central_slice e (some window) window_offset ≡ some central
    → (window_offset ≤ e.central_offset)
      × (central ≡ drop (e.central_offset - window_offset) window)
      × (e.central_size ≤ length central)
unfolding central_slice
central_slice_fits e window central window_offset found =
    let into = e.central_offset - window_offset in
    let beyond = ltb (length window) into || ltb (length window - into) e.central_size in
    let (behind, rest) =
      past_test (ltb e.central_offset window_offset)
        (if beyond then none else some (drop into window)) central found in
    let (fits, slice) = past_test beyond (some (drop into window)) central rest in
    let same = some-injective (drop into window) central slice in
    let (starts, ends) =
      neither (ltb (length window) into) (ltb (length window - into) e.central_size) fits in
    (
      ltb→le _ _ behind,
      sym same,
      omega (arith, ltb→le _ _ starts, ltb→le _ _ ends, ap length same, length-drop into window),
    )

-- The directory that the tail of a file leads to, in a file of less than 2^64 bytes: it is inside the
-- window from its first byte, all its bytes are there, and it ends in front of a record, with the
-- signature and the right comment, that is whole in the window.
pub find_end-central_slice :
    (window central : Bytes) (window_offset : ℕ) (e : ZipEnd)
    → window_offset + length window < 18446744073709551616
    → find_end (some window) window_offset ≡ some e
    → central_slice e (some window) window_offset ≡ some central
    → (back : ℕ) × (back + eocd_size ≤ length window)
      × (is_record window back ≡ true)
      × (window_offset ≤ e.central_offset)
      × (e.central_offset - window_offset + e.central_size ≤ back)
      × (central ≡ drop (e.central_offset - window_offset) window)
      × (e.central_size ≤ length central)
unfolding find_end
find_end-central_slice window central window_offset e small found sliced =
    let top = length window - eocd_size in
    let (long, rest) =
      past_test (ltb (length window) eocd_size) (find_end_loop window window_offset top) e found in
    let (back, below, here, read) = find_end_loop-ReadAt window window_offset top e rest in
    let room = ltb→le _ _ long in
    let precedes = record_at_precedes window window_offset back e (omega arith) read in
    let (inside, slice, whole) = central_slice_fits e window central window_offset sliced in
    (back, omega arith, here, inside, omega arith, slice, whole)
