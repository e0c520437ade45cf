-- ===== src/Zcl/Types.antt =====
-- The types of ZCL values: zcl_type_info and zcl_sizeof_type of pxbee/pan/zigbee/zcl_types.c.
pub mod Sizes
use pxbee_open_close.Prelude.{
  ℕ, ◌+◌, Bool, ◌||◌, ℤ, pos, negsuc, List, [], ◌∷◌, ◌++◌, ◌==◌, get_or, replicate, bit_and,
  if◌then◌else◌,
}

-- ZCL_T_INVALID, ZCL_T_SIZE_SHORT, ZCL_T_SIZE_LONG, ZCL_T_SIZE_VARIABLE, ZCL_T_SIZE_128BIT
abbrev pub t_invalid : ℕ
t_invalid = 0x0f

abbrev t_short : ℕ
t_short = 0x0e

abbrev t_long : ℕ
t_long = 0x0d

abbrev t_128bit : ℕ
t_128bit = 0x0c

abbrev t_variable : ℕ
t_variable = 0x0b

abbrev t_size_mask : ℕ
t_size_mask = 0x0f

-- ZCL_T_DISCRETE, ZCL_T_ANALOG, ZCL_T_SIGNED, ZCL_T_FLOAT
abbrev t_discrete : ℕ
t_discrete = 0x80

abbrev t_analog : ℕ
t_analog = 0x20

abbrev pub t_signed : ℕ
t_signed = 0x40

abbrev pub t_float : ℕ
t_float = 0x10

-- `n` entries for types that do not exist
gap : ℕ → List ℕ
gap n = replicate n t_invalid

-- eight entries for the sizes from 1 to 8, with the same flags
sizes : ℕ → List ℕ
sizes f = (1 + f) ∷ (2 + f) ∷ (3 + f) ∷ (4 + f) ∷ (5 + f) ∷ (6 + f) ∷ (7 + f) ∷ (8 + f) ∷ []

float_sizes : List ℕ
unfolding gap
float_sizes = let f = t_float + t_analog + t_signed in (2 + f) ∷ (4 + f) ∷ (8 + f) ∷ gap 5

-- `zcl_type_info`, eight or sixteen entries a line
unfoldable pub type_info_table : List ℕ
unfolding gap sizes float_sizes
type_info_table =
    (0 ∷ gap 7)
    ++ sizes t_discrete
    ++ ((1 + t_discrete) ∷ gap 7)
    ++ sizes t_discrete
    ++ sizes t_analog
    ++ sizes (t_analog + t_signed)
    ++ ((1 + t_discrete) ∷ (2 + t_discrete) ∷ gap 6)
    ++ float_sizes
    ++ (t_invalid ∷ t_short ∷ t_short ∷ t_long ∷ t_long ∷ gap 3)
    ++ (t_variable ∷ gap 3)
    ++ (t_variable ∷ gap 3)
    ++ (t_variable ∷ t_variable ∷ gap 6)
    ++ gap 8
    ++ gap 128
    ++ ((4 + t_analog) ∷ (4 + t_analog) ∷ (4 + t_analog) ∷ gap 5)
    ++ ((2 + t_discrete) ∷ (2 + t_discrete) ∷ (4 + t_discrete) ∷ gap 5)
    ++ ((8 + t_discrete) ∷ (t_128bit + t_discrete) ∷ gap 6)
    ++ gap 7
    ++ (0 ∷ [])

-- `zcl_type_info[ type]`
unfoldable pub type_info : ℕ → ℕ
type_info type = get_or type_info_table type t_invalid

-- ZCL_SIZE_SHORT, ZCL_SIZE_LONG, ZCL_SIZE_VARIABLE and ZCL_SIZE_INVALID
abbrev pub size_short : ℤ
size_short = negsuc 0

abbrev pub size_long : ℤ
size_long = negsuc 1

abbrev pub size_variable : ℤ
size_variable = negsuc 2

abbrev pub size_invalid : ℤ
size_invalid = negsuc 126

unfoldable pub sizeof_type : ℕ → ℤ
sizeof_type type =
    let size = bit_and (type_info type) t_size_mask in
    if size == t_short
    then size_short
    else if size == t_long
    then size_long
    else if size == t_variable
    then size_variable
    else if size == t_invalid
    then size_invalid
    else if size == t_128bit
    then pos 16
    else pos size

-- ZCL_TYPE_LOGICAL_BOOLEAN, ZCL_TYPE_STRING_CHAR, ZCL_TYPE_ARRAY, ZCL_TYPE_STRUCT, ZCL_TYPE_SET
-- and ZCL_TYPE_BAG
abbrev pub logical_boolean : ℕ
logical_boolean = 0x10

abbrev pub string_char : ℕ
string_char = 0x42

abbrev pub type_array : ℕ
type_array = 0x48

abbrev pub type_struct : ℕ
type_struct = 0x4c

abbrev pub type_set : ℕ
type_set = 0x50

abbrev pub type_bag : ℕ
type_bag = 0x51

-- ZCL_TYPE_SIGNED_24BIT
abbrev pub signed_24bit : ℕ
signed_24bit = 0x2a

-- the cases for the types of three bytes, kept in four by the host
abbrev pub is_24bit : ℕ → Bool
is_24bit type = (type == 0x0a) || (type == 0x1a) || (type == 0x22) || (type == signed_24bit)
