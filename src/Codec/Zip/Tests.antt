-- ===== src/Codec/Zip/Tests.antt =====
-- A ZIP archive of one stored member, `a`, that is empty.
use inkwell.Prelude.{
  ℕ, ◌+◌, ◌-◌, ◌≤◌, ◌≡◌, refl, arith, true, some, [], ◌∷◌, ◌++◌, Bytes, length, drop,
}
use inkwell.Codec.Zip.{
  ZipEnd, eocd_size, zip_u16, zip_u32, is_record, record_at, find_end_loop, find_end, central_slice,
}
use inkwell.Codec.Zip.Record.{find_end_last, find_end-central_slice}

abbrev directory : Bytes
directory =
    0x50 ∷ 0x4B ∷ 1 ∷ 2 ∷ 20 ∷ 0 ∷ 20 ∷ 0 ∷ 0 ∷ 0 ∷ 0 ∷ 0 ∷ 0 ∷ 0 ∷ 0 ∷ 0 ∷ 0 ∷ 0 ∷ 0 ∷ 0 ∷ 0 ∷ 0
    ∷ 0 ∷ 0 ∷ 0 ∷ 0 ∷ 0 ∷ 0 ∷ 1 ∷ 0 ∷ 0 ∷ 0 ∷ 0 ∷ 0 ∷ 0 ∷ 0 ∷ 0 ∷ 0 ∷ 0 ∷ 0 ∷ 0 ∷ 0 ∷ 0 ∷ 0 ∷ 0 ∷ 0
    ∷ 0x61 ∷ []

abbrev tail_window : Bytes
tail_window =
    directory
    ++ (0x50 ∷ 0x4B ∷ 5 ∷ 6 ∷ 0 ∷ 0 ∷ 0 ∷ 0 ∷ 1 ∷ 0 ∷ 1 ∷ 0 ∷ 47 ∷ 0 ∷ 0 ∷ 0 ∷ 31 ∷ 0 ∷ 0 ∷ 0 ∷ 0
        ∷ 0 ∷ [])

abbrev an_end : ZipEnd
an_end = record { central_offset = 31; central_size = 47; entries = 1 }

an_end_found : find_end (some tail_window) 31 ≡ some an_end
unfolding find_end find_end_loop is_record record_at zip_u16 zip_u32
an_end_found = refl

a_directory : central_slice an_end (some tail_window) 31 ≡ some tail_window
unfolding central_slice
a_directory = refl

record_here : is_record tail_window 47 ≡ true
unfolding is_record zip_u16 zip_u32
record_here = refl

find_end_last_example : find_end (some tail_window) 31 ≡ record_at tail_window 31 47
find_end_last_example =
    find_end_last tail_window 31 47 (omega arith) record_here
      (λ b above under. absurd (omega arith))

find_end-central_slice_example :
    (back : ℕ) × (back + eocd_size ≤ length tail_window)
    × (is_record tail_window back ≡ true)
    × (31 ≤ an_end.central_offset)
    × (an_end.central_offset - 31 + an_end.central_size ≤ back)
    × (tail_window ≡ drop (an_end.central_offset - 31) tail_window)
    × (an_end.central_size ≤ length tail_window)
find_end-central_slice_example =
    find_end-central_slice tail_window tail_window 31 an_end (omega arith) an_end_found a_directory
