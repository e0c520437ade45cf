-- ===== src/Zcl/Types/Sizes.antt =====
-- What the table of types says of the types with a fixed size.
use pxbee_open_close.Prelude.{
  ℕ, suc, Bool, true, false, not, ◌&&◌, ◌||◌, zero, pos, negsuc, ◌==◌, ◌≡◌, refl, arith, length,
}
use pxbee_open_close.Prelude.Bits.{IsByte, tested_below, tested_below_lem}
use pxbee_open_close.Zcl.Types.{
  type_info, type_info_table, sizeof_type, t_invalid, is_24bit, logical_boolean, string_char,
  type_array, type_struct, type_set, type_bag,
}

-- There is an entry for each byte.
pub table_length : length type_info_table ≡ 256
unfolding type_info_table
table_length = refl

-- the checks for a size of `n + 1`
abbrev fixed_checks : ℕ → ℕ → Bool
fixed_checks type n =
    not (type == string_char)
    && not (type == type_array)
    && not (type == type_struct)
    && not (type == type_set)
    && not (type == type_bag)
    && not (type == 0x00)
    && not (type == 0xff)
    && not (type_info type == t_invalid)
    && (not (is_24bit type) || (n == 2))
    && (not (type == logical_boolean) || (n == 0))

fixed_ok : ℕ → Bool
fixed_ok type = elim (sizeof_type type) [
  | pos zero ↦ true
  | pos (suc n) ↦ fixed_checks type n
  | negsuc _ ↦ true
]

fixed_table : tested_below fixed_ok 256 ≡ true
unfolding tested_below fixed_ok sizeof_type type_info type_info_table
fixed_table = refl

-- the facts on a type whose size is `n + 1`
pub record IsFixed (type n : ℕ) : Type 0 where
  pub no_string : (type == string_char) ≡ false
  pub no_array : (type == type_array) ≡ false
  pub no_struct : (type == type_struct) ≡ false
  pub no_set : (type == type_set) ≡ false
  pub no_bag : (type == type_bag) ≡ false
  pub no_data : (type == 0x00) ≡ false
  pub no_unknown : (type == 0xff) ≡ false
  pub known : (type_info type == t_invalid) ≡ false
  pub three : is_24bit type ≡ true → n ≡ 2
  pub one : (type == logical_boolean) ≡ true → n ≡ 0

checks-IsFixed : (type n : ℕ) → fixed_checks type n ≡ true → IsFixed type n
checks-IsFixed type n h = record {
  no_string = ground arith;
  no_array = ground arith;
  no_struct = ground arith;
  no_set = ground arith;
  no_bag = ground arith;
  no_data = ground arith;
  no_unknown = ground arith;
  known = ground arith;
  three = λ e. ground arith;
  one = λ e. ground arith;
}

pub sizeof_type-IsFixed :
    (type n : ℕ) → IsByte type → sizeof_type type ≡ pos (suc n) → IsFixed type n
unfolding fixed_ok
sizeof_type-IsFixed type n byte sized =
    let tested : fixed_ok type ≡ true = tested_below_lem fixed_ok 256 type fixed_table byte in
    checks-IsFixed type n (rw (fixed_ok, sized) at tested)
