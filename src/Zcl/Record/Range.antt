-- ===== src/Zcl/Record/Range.antt =====
-- The range check of zcl_check_minmax.
use mathlib.Core.Path.{subst}
use pxbee_open_close.Prelude.{
  if_ind, ap, sym, ℕ, ◌+◌, ◌*◌, ◌%◌, Bool, true, false, ◌||◌, ◌&&◌, pos, ◌==◌, ◌≡◌, ◌≢◌, refl, ◌≤◌,
  arith, ltb, some, [], ◌∷◌, bit_or, if◌then◌else◌, Bool-cases, inl, inr,
}
use pxbee_open_close.Prelude.Bits.{Bytes, IsByte, has, tested_below, tested_below_lem}
use pxbee_open_close.Zcl.{Attribute, attrib_flag_has_min, attrib_flag_has_max}
use pxbee_open_close.Zcl.Types.{sizeof_type, type_info, type_info_table}
use pxbee_open_close.Zcl.Record.{
  check_minmax, check_value, compare_range, sign_extend, le_value, lt_signed,
}

-- ZCL_TYPE_SIGNED_8BIT
abbrev signed_8bit : ℕ
signed_8bit = 0x28

-- what the check takes a byte with the sign bit for: -2 or -1
abbrev misread : ℕ → ℕ
misread b = 4294967294 + b % 2

abbrev extended_ok : ℕ → Bool
extended_ok b = ltb b 128 || (sign_extend 1 (b ∷ []) (b + 256 * 0) == misread b)

extended_table : tested_below extended_ok 256 ≡ true
unfolding tested_below sign_extend
extended_table = refl

extended :
    (b : ℕ) (bs : Bytes)
    → IsByte b
    → 128 ≤ b
    → sign_extend 1 (b ∷ bs) (le_value 1 (b ∷ bs)) ≡ misread b
unfolding sign_extend le_value
extended b bs byte negative =
    let checked : extended_ok b ≡ true = tested_below_lem extended_ok 256 b extended_table byte in
    let no : ltb b 128 ≡ false = ground arith in
    let same : sign_extend 1 (b ∷ []) (b + 256 * 0) ≡ misread b = ground (arith) in same

checks_misread :
    (e : Attribute) (b : ℕ) (bs : Bytes)
    → e.type ≡ signed_8bit
    → IsByte b
    → 128 ≤ b
    → check_value e (b ∷ bs) 1 ≡ compare_range lt_signed e (misread b)
unfolding check_value type_info type_info_table
checks_misread e b bs typed byte negative =
    rw typed (ap (compare_range lt_signed e) (extended b bs byte negative))

not_below : (b min : ℕ) → lt_signed 4294967294 min ≡ false → lt_signed (misread b) min ≡ false
not_below b min low = ground arith

rest_not_one :
    (e : Attribute) (v : ℕ)
    → (if has e.flags attrib_flag_has_max && lt_signed e.max v then pos 2 else pos 0) ≢ pos 1
rest_not_one e v =
    if_ind (λ r. r ≢ pos 1) (has e.flags attrib_flag_has_max && lt_signed e.max v) (λ q. cc)
      (λ q. cc)

range_not_one :
    (e : Attribute) (v : ℕ) → lt_signed v e.min ≡ false → compare_range lt_signed e v ≢ pos 1
unfolding compare_range
range_not_one e v above = elim (Bool-cases (has e.flags attrib_flag_has_min)) [
  | inl bounded ↦ rw (compare_range, bounded, above) (rest_not_one e v)
  | inr free ↦ rw (compare_range, free) (rest_not_one e v)
]

-- An attribute of the type of signed bytes with a minimum of -2 or less: the check never finds a
-- value below the minimum, not even a negative one that is.
pub minimum_ignored :
    (e : Attribute) (b : ℕ) (bs : Bytes)
    → e.type ≡ signed_8bit
    → IsByte b
    → 128 ≤ b
    → lt_signed 4294967294 e.min ≡ false
    → check_minmax (some e) (b ∷ bs) ≢ pos 1
unfolding check_minmax sizeof_type type_info type_info_table
minimum_ignored e b bs typed byte negative low =
    elim (Bool-cases (has e.flags (bit_or attrib_flag_has_min attrib_flag_has_max))) [
      | inl ranged ↦
          rw (check_minmax, ranged, typed)
            (subst (λ r. r ≢ pos 1) (sym (checks_misread e b bs typed byte negative))
              (range_not_one e (misread b) (not_below b e.min low)))
      | inr free ↦ rw (check_minmax, free) (λ q. cc)
    ]
