-- ===== src/Zcl/Encode/Bounds.antt =====
-- How much zcl_encode_attribute_value writes for a value that is no array and no structure.
use pxbee_open_close.Prelude.{
  ℕ, zero, suc, ◌+◌, ◌-◌, Bool, true, false, not, ◌||◌, ℤ-cases, pos, negsuc, ◌==◌, ◌≡◌, refl, ◌≤◌,
  ◌<◌, arith, ltb, Option-cases, length, Bool-cases, inl, inr, length-reverse, if_ind,
}
use pxbee_open_close.Prelude.Bits.{Bytes, has, tested_below, tested_below_lem}
use pxbee_open_close.Zcl.{Attribute, Store, attrib_flag_raw}
use pxbee_open_close.Zcl.Types.{
  type_info, type_info_table, sizeof_type, t_invalid, is_24bit, logical_boolean, string_char,
  type_struct,
}
use pxbee_open_close.Zcl.Memory.{load, length-load}
use pxbee_open_close.Zcl.Encode.{
  Encoded, written, failed, characters, encode_string, encode_switch, encode_scalar, is_array,
  encode_attribute_value, encode_body, encode_at, encode_value, update,
}

-- An encoding, if it succeeds, has at most `bound` bytes; it is not too deep.
pub data Within (bound : ℕ) : Encoded → Type 0 where
  fits : {v : Bytes} → length v ≤ bound → Within bound (written v)
  fails : {status : ℕ} → Within bound (failed status)

length-characters : (m : ℕ → ℕ) (p left : ℕ) → length (characters m p left) ≤ left
unfolding characters
length-characters m p zero = omega arith
length-characters m p (suc left) =
    let rest = length-characters m (p + 1) left in
    if_ind (λ (bs : Bytes). length bs ≤ suc left) (m p == 0) (omega arith) (omega (arith, rest))

string-Within :
    (m : ℕ → ℕ) (room p bound : ℕ)
    → room ≤ bound
    → 1 ≤ bound
    → Within bound (encode_string m room p)
unfolding encode_string
string-Within m room p bound below one =
    if_ind (Within bound) (m (p + length (characters m p (room - 1))) == 0)
      (fits (omega (arith, length-characters m p (room - 1)))) fails

three_ok : ℕ → Bool
three_ok type = not (is_24bit type) || elim (sizeof_type type) [ pos n ↦ n == 3 | negsuc _ ↦ false ]

three_table : tested_below three_ok 256 ≡ true
unfolding tested_below three_ok sizeof_type type_info type_info_table
three_table = refl

three-byte : (type : ℕ) → is_24bit type ≡ true → type < 256
three-byte type three = ground arith

sizeof_type-three : (type : ℕ) → is_24bit type ≡ true → sizeof_type type ≡ pos 3
unfolding three_ok
sizeof_type-three type three =
    let known : three_ok type ≡ true =
      tested_below_lem three_ok 256 type three_table (three-byte type three) in
    elim (ℤ-cases (sizeof_type type)) [
      | inl (n, sized) ↦
          let checked : (n == 3) ≡ true = rw (three_ok, three, sized) at known in
          let same : n ≡ 3 = ground arith in rw (sized, same) refl
      | inr (n, sized) ↦ absurd (cc (rw (three_ok, three, sized) at known))
    ]

switch-Within :
    (m : ℕ → ℕ) (room type size p bound : ℕ)
    → room ≤ bound
    → 1 ≤ bound
    → size ≤ bound
    → (is_24bit type ≡ true → 3 ≤ bound)
    → Within bound (encode_switch m room type size p)
unfolding encode_switch
switch-Within m room type size p bound below one sized three =
    if_ind (Within bound) (type == logical_boolean) (fits (omega arith)) (
      if_ind (Within bound) (type == string_char) (string-Within m room p bound below one)
        elim (Bool-cases (is_24bit type)) [
          | inl e ↦ rw e (
              fits (
                omega (arith, three e, length-reverse (load m (p + 1) 3), length-load m (p + 1) 3)))
          | inr e ↦ rw e (
              if_ind (Within bound) (type_info type == t_invalid) fails
                (fits (omega (arith, sized, length-reverse (load m p size), length-load m p size))))
        ])

three_of : (type size : ℕ) → is_24bit type ≡ true → sizeof_type type ≡ pos size → size ≡ 3
three_of type size e sized = cc (sizeof_type-three type e, sized)

scalar-Within :
    (m : ℕ → ℕ) (room type flags p bound : ℕ)
    → room ≤ bound
    → 1 ≤ bound
    → Within bound (encode_scalar m room type flags p)
unfolding encode_scalar
scalar-Within m room type flags p bound below one = elim (ℤ-cases (sizeof_type type)) [
  | inl (size, sized) ↦
      rw (encode_scalar, sized)
        elim (Bool-cases (ltb room size)) [
          | inl small ↦ rw small fails
          | inr enough ↦
              let holds : size ≤ bound = ground arith in
              rw enough (
                if_ind (Within bound) (has flags attrib_flag_raw)
                  (fits (omega (arith, holds, length-load m p size)))
                  (switch-Within m room type size p bound below one holds
                    (λ e. omega (arith, holds, three_of type size e sized))))
        ]
  | inr (n, sized) ↦
      rw (encode_scalar, sized)
        (switch-Within m room type 0 p bound below one (omega arith)
          (λ e. absurd (cc (sizeof_type-three type e, sized))))
]

-- an attribute whose value is no array and no structure
abbrev pub IsScalar : Attribute → Type 0
IsScalar e = (is_array e.type ≡ false) × ((e.type == type_struct) ≡ false)

at-Within :
    (depth room : ℕ) (e : Attribute) (p bound : ℕ) (r : ℕ × Store)
    → IsScalar e
    → room ≤ bound
    → 1 ≤ bound
    → Within bound (encode_at depth room e p r).0
unfolding encode_at encode_body
at-Within depth room e p bound (status, s) (no_array, no_struct) below one =
    elim (Bool-cases (status == 0)) [
      | inl good ↦
          rw (encode_at, good, no_array, no_struct)
            (scalar-Within s.byte_at room e.type e.flags p bound below one)
      | inr bad ↦ rw (encode_at, bad) fails
    ]

value-Within :
    (depth room : ℕ) (e : Attribute) (s : Store) (bound : ℕ)
    → IsScalar e
    → room ≤ bound
    → 1 ≤ bound
    → Within bound (encode_value depth room e s).0
unfolding encode_value
value-Within depth room e s bound scalar below one = elim (Option-cases e.value) [
  | inl null ↦ rw (encode_value, null) fails
  | inr (p, at) ↦
      rw (encode_value, at) (at-Within depth room e p bound (update e s) scalar below one)
]

-- Of such an attribute no more is written than there is room for, but for one byte where there is no
-- room at all.
pub encode-Within :
    (depth room : ℕ) (e : Attribute) (s : Store) (bound : ℕ)
    → IsScalar e
    → room ≤ bound
    → 1 ≤ bound
    → Within bound (encode_attribute_value depth room e s).0
unfolding encode_attribute_value
encode-Within depth room e s bound scalar below one = elim (ℤ-cases (sizeof_type e.type)) [
  | inl (zero, sized) ↦ rw (encode_attribute_value, sized) (fits (omega arith))
  | inl (suc n, sized) ↦
      rw (encode_attribute_value, sized) (value-Within depth room e s bound scalar below one)
  | inr (n, sized) ↦
      rw (encode_attribute_value, sized) (value-Within depth room e s bound scalar below one)
]
