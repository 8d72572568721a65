-- ===== src/Codec/Uf2/Contiguous.antt =====
-- The span that an image without gaps covers.
use inkwell.Prelude.{
  ℕ, zero, suc, ◌+◌, ◌/◌, ◌%◌, ◌^◌, ◌<◌, ◌≡◌, arith, refl, sym, Bool, true, false, ◌||◌, not,
  Option, none, some, Bytes, length, take, drop, ltb, ◌==◌, if◌then◌else◌, subst, Bool-cases, inl,
  inr,
}
use inkwell.Codec.Uf2.{
  block_size, Verdict, not_uf2, malformed, wrong_family, resume, Block, Info, new_info, Walk, Round,
  go, stop, bounds_fail, first_info, eq_bool, count_block, in_order, family_round, round, finish,
  walk, validate, block_parse,
}

-- While no gap was seen, the payload so far is what lies between the first and the last address.
abbrev Spans : Info → Type 0
Spans info = info.contiguous ≡ true → info.first_address + info.payload_bytes ≡ info.last_address

record IsTracked (w : Walk) : Type 0 where
  spans : Spans w.info
  tip : w.addressed ≡ true → w.next_address ≡ w.info.last_address
  unaddressed : w.addressed ≡ false → (w.info.payload_bytes ≡ 0)

-- What a round keeps.
data Kept : Round → Type 0 where
  kept_go : {w : Walk} → IsTracked w → Kept (go w)
  kept_stop : {verdict : Verdict} {info : Info} → Spans info → Kept (stop verdict info)

Kept-if : (c : Bool) (r s : Round) → Kept r → Kept s → Kept (if c then r else s)
Kept-if true r s h k = h
Kept-if false r s h k = k

-- The information of the walk, with other fields than those that say where the payload lies.
abbrev SamePlace : Info → Info → Type 0
SamePlace a b =
    (a.contiguous ≡ b.contiguous)
    × (a.first_address ≡ b.first_address)
    × (a.last_address ≡ b.last_address)
    × (a.payload_bytes ≡ b.payload_bytes)

no_wrap : (b : Block) → bounds_fail b ≡ false → b.target_address + b.payload_size < 2 ^ 32
unfolding bounds_fail
no_wrap b h = ground arith

module _ (w : Walk) (info : Info) (b : Block) (t : IsTracked w) (same : SamePlace info w.info) where
  count_block-IsTracked : bounds_fail b ≡ false → IsTracked (count_block w info b)
  unfolding count_block
  count_block-IsTracked fits = record {
    spans = λ h. ground (arith, no_wrap b fits);
    tip = λ h. ground arith;
    unaddressed = λ h. ground arith;
  }

  Spans-same : Spans info
  Spans-same h = ground arith

  in_order-Kept : (i : ℕ) → bounds_fail b ≡ false → Kept (in_order i w info b)
  unfolding in_order
  in_order-Kept i fits = Kept-if _ _ _ (kept_stop Spans-same) (kept_go (count_block-IsTracked fits))

module _ (w : Walk) (b : Block) (t : IsTracked w) where
  same_first : SamePlace (first_info w.info b) w.info
  unfolding first_info
  same_first = (refl, refl, refl, refl)

  family_round-Kept :
      (expect_family i : ℕ) → bounds_fail b ≡ false → Kept (family_round expect_family i w b)
  unfolding family_round
  family_round-Kept expect_family zero fits =
      Kept-if _ _ _
        (kept_stop {verdict = wrong_family} (Spans-same w (first_info w.info b) b t same_first))
        (in_order-Kept w (first_info w.info b) b t same_first 0 fits)
  family_round-Kept expect_family (suc i) fits =
      Kept-if
        (not (eq_bool b.has_family w.info.has_family) || not (b.family_id == w.info.family_id)) _ _
        (kept_stop {verdict = wrong_family} {info = w.info} t.spans)
        (Kept-if (not (b.num_blocks == w.info.num_blocks)) _ _
          (kept_stop {verdict = malformed} {info = w.info} t.spans)
          (in_order-Kept w w.info b t (refl, refl, refl, refl) (suc i) fits))

round-Kept :
    (expect_family i : ℕ) (w : Walk) (o : Option Block)
    → IsTracked w
    → Kept (round expect_family i w o)
unfolding round
round-Kept expect_family zero w none t = kept_stop t.spans
round-Kept expect_family (suc i) w none t = kept_stop t.spans
round-Kept expect_family zero w (some b) t = elim (Bool-cases (bounds_fail b)) [
  | inl e ↦ rw e (kept_stop t.spans)
  | inr e ↦ rw e (family_round-Kept w b t expect_family zero e)
]
round-Kept expect_family (suc i) w (some b) t = elim (Bool-cases (bounds_fail b)) [
  | inl e ↦ rw e (kept_stop t.spans)
  | inr e ↦ rw e (family_round-Kept w b t expect_family (suc i) e)
]

finish-info : (w : Walk) → (finish w).1 ≡ w.info
unfolding finish
finish-info w = ground arith

resume-Spans :
    (rest : Walk → Verdict × Info)
    → ((w : Walk) → IsTracked w → Spans (rest w).1)
    → (r : Round) → Kept r
    → Spans (resume rest r).1
unfolding resume
resume-Spans rest h (go w) (kept_go t) = h w t
resume-Spans rest h (stop _ info) (kept_stop s) = s

walk-Spans :
    (expect_family n i : ℕ) (image : Bytes) (w : Walk)
    → IsTracked w
    → Spans (walk expect_family n i image w).1
unfolding walk
walk-Spans expect_family zero i image w t = subst Spans (sym (finish-info w)) t.spans
walk-Spans expect_family (suc n) i image w t =
    resume-Spans (walk expect_family n (i + 1) (drop block_size image))
      (walk-Spans expect_family n (i + 1) (drop block_size image))
      (round expect_family i w (block_parse (take block_size image)))
      (round-Kept expect_family i w (block_parse (take block_size image)) t)

Spans-if : (c : Bool) (a b : Verdict × Info) → Spans a.1 → Spans b.1 → Spans (if c then a else b).1
Spans-if true a b h k = h
Spans-if false a b h k = k

validate-Spans : (image : Bytes) (expect_family : ℕ) → Spans (validate image expect_family).1
unfolding validate
validate-Spans image expect_family =
    Spans-if (ltb (length image) block_size || not (length image % block_size == 0))
      (not_uf2, new_info)
      (walk expect_family (length image / block_size) 0 image
        (record { info = new_info; addressed = false; next_address = 0 }))
      (λ h. refl)
      (walk-Spans expect_family (length image / block_size) 0 image
        (record { info = new_info; addressed = false; next_address = 0 })
        (record { spans = λ h. refl; tip = λ h. cc; unaddressed = λ h. refl }))

-- Whatever the verdict, where the walk saw no gap, the payload bytes that it counted are exactly the
-- span from the first to the last address, however many records are skipped.
pub validate_span :
    (image : Bytes) (expect_family : ℕ) (info : Info)
    → (validate image expect_family).1 ≡ info
    → info.contiguous ≡ true
    → info.first_address + info.payload_bytes ≡ info.last_address
validate_span image expect_family info e whole =
    subst Spans e (validate-Spans image expect_family) whole
