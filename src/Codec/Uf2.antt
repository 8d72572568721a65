-- ===== src/Codec/Uf2.antt =====
-- codec/uf2.c and codec/uf2.h: a firmware image as 512-byte records.
pub mod Contiguous
mod Tests
use inkwell.Prelude.{
  ℕ, zero, suc, ◌+◌, ◌-◌, ◌*◌, ◌/◌, ◌%◌, ◌^◌, Bool, true, false, ◌&&◌, ◌||◌, not, Option, none,
  some, List, [], ◌∷◌, Bytes, bit, u32, length, get_or, take, drop, ltb, ◌==◌, if◌then◌else◌,
}

abbrev pub block_size : ℕ
block_size = 512

abbrev pub payload_max : ℕ
payload_max = 476

abbrev pub magic_start0 : ℕ
magic_start0 = 0x0A324655

abbrev pub magic_start1 : ℕ
magic_start1 = 0x9E5D5157

abbrev pub magic_end : ℕ
magic_end = 0x0AB16F30

abbrev pub uint32_max : ℕ
uint32_max = 4294967295

pub data Verdict : Type 0 where
  verdict_ok not_uf2 malformed wrong_family out_of_order incomplete : Verdict

pub record Block : Type 0 where
  pub flags : ℕ
  pub target_address : ℕ
  pub payload_size : ℕ
  pub block_no : ℕ
  pub num_blocks : ℕ
  pub family_id : ℕ
  pub has_family : Bool
  pub skip : Bool

pub record Info : Type 0 where
  pub family_id : ℕ
  pub has_family : Bool
  pub num_blocks : ℕ
  pub blocks : ℕ
  pub payload_bytes : ℕ
  pub first_address : ℕ
  pub last_address : ℕ
  pub contiguous : Bool

-- The little-endian word at an offset.
pub uf2_u32 : Bytes → ℕ → ℕ
uf2_u32 bytes at =
    get_or bytes at 0
    + get_or bytes (at + 1) 0 * 256
    + get_or bytes (at + 2) 0 * 65536
    + get_or bytes (at + 3) 0 * 16777216

-- `none` is false; `*out` is then not read.
pub block_parse : Bytes → Option Block
unfolding uf2_u32
block_parse bytes =
    if ltb (length bytes) block_size
    then none
    else if not (uf2_u32 bytes 0 == magic_start0)
        || not (uf2_u32 bytes 4 == magic_start1)
        || not (uf2_u32 bytes (block_size - 4) == magic_end)
    then none
    else (let flags = uf2_u32 bytes 8 in
        let has_family = bit flags 13 == 1 in
        some (record {
          flags = flags;
          target_address = uf2_u32 bytes 12;
          payload_size = uf2_u32 bytes 16;
          block_no = uf2_u32 bytes 20;
          num_blocks = uf2_u32 bytes 24;
          family_id = if has_family then uf2_u32 bytes 28 else 0;
          has_family = has_family;
          skip = bit flags 0 == 1;
        }))

abbrev pub new_info : Info
new_info = record {
  family_id = 0;
  has_family = false;
  num_blocks = 0;
  blocks = 0;
  payload_bytes = 0;
  first_address = 0;
  last_address = 0;
  contiguous = true;
}

-- The loop's variables: the record being filled, whether a block was addressed, the next address.
pub record Walk : Type 0 where
  pub info : Info
  pub addressed : Bool
  pub next_address : ℕ

-- What the rest of one round makes of the verdict so far: go on, or stop with a verdict.
pub data Round : Type 0 where
  go : Walk → Round
  stop : Verdict → Info → Round

pub eq_bool : Bool → Bool → Bool
eq_bool true b = b
eq_bool false b = not b

-- The block's bounds, which come before everything else.
pub bounds_fail : Block → Bool
bounds_fail b =
    ltb payload_max b.payload_size
    || not (b.payload_size % 4 == 0)
    || ltb (uint32_max - b.payload_size) b.target_address

-- The first block sets the family and the count.
pub first_info : Info → Block → Info
first_info info b = record info {
  has_family = b.has_family;
  family_id = b.family_id;
  num_blocks = b.num_blocks;
}

-- Counting the block, and its payload where it is not skipped.
pub count_block : Walk → Info → Block → Walk
count_block w info b =
    let counted = record info { blocks = u32 (info.blocks + 1) } in
    let next = u32 (b.target_address + b.payload_size) in
    if b.skip then record w { info = counted } else record {
      info = record counted {
        first_address = if w.addressed then counted.first_address else b.target_address;
        contiguous =
            if w.addressed && not (b.target_address == w.next_address)
            then false
            else counted.contiguous;
        last_address = next;
        payload_bytes = counted.payload_bytes + b.payload_size;
      };
      addressed = true;
      next_address = next;
    }

-- The order test behind the family tests.
pub in_order : ℕ → Walk → Info → Block → Round
in_order i w info b =
    if not (b.block_no == u32 i) then stop out_of_order info else go (count_block w info b)

-- The first block is checked against the caller's family, each later one against the first.
pub family_round : ℕ → ℕ → Walk → Block → Round
family_round expect_family zero w b =
    let info = first_info w.info b in
    if not (expect_family == 0) && (not b.has_family || not (b.family_id == expect_family))
    then stop wrong_family info
    else in_order 0 w info b
family_round expect_family (suc i) w b =
    if not (eq_bool b.has_family w.info.has_family) || not (b.family_id == w.info.family_id)
    then stop wrong_family w.info
    else if not (b.num_blocks == w.info.num_blocks)
    then stop malformed w.info
    else in_order (suc i) w w.info b

pub round : ℕ → ℕ → Walk → Option Block → Round
round expect_family zero w none = stop not_uf2 w.info
round expect_family (suc i) w none = stop malformed w.info
round expect_family i w (some b) =
    if bounds_fail b then stop malformed w.info else family_round expect_family i w b

-- The verdict behind the loop.
pub finish : Walk → Verdict × Info
finish w =
    if not (w.info.blocks == w.info.num_blocks)
    then (if ltb w.info.blocks w.info.num_blocks then incomplete else malformed, w.info)
    else (verdict_ok, w.info)

-- A round that stops returns from the loop; one that goes on leaves the rest of it.
pub resume : (Walk → Verdict × Info) → Round → Verdict × Info
resume rest (go w) = rest w
resume rest (stop verdict info) = (verdict, info)

-- The loop over the `n` records that are left; `image` starts at the next of them.
pub walk : ℕ → ℕ → ℕ → Bytes → Walk → Verdict × Info
walk expect_family zero i image w = finish w
walk expect_family (suc n) i image w =
    resume (walk expect_family n (i + 1) (drop block_size image))
      (round expect_family i w (block_parse (take block_size image)))

-- The verdict, and what `*out` is filled with. An image that is NULL is an empty one.
pub validate : Bytes → ℕ → Verdict × Info
unfolding walk resume finish round bounds_fail family_round first_info eq_bool in_order count_block
    block_parse
validate image expect_family =
    let len = length image in
    if ltb len block_size || not (len % block_size == 0)
    then (not_uf2, new_info)
    else walk expect_family (len / block_size) 0 image
        (record { info = new_info; addressed = false; next_address = 0 })
