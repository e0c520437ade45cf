-- ===== src/Zcl/Decode/Laws.antt =====
-- Writing a value of a fixed size into the memory of its attribute, and reading it back.
use mathlib.Core.Path.{subst}
use pxbee_open_close.Prelude.{
  ℕ, suc, ◌+◌, Bool, true, false, ◌||◌, pos, some, [], ◌∷◌, ◌==◌, ◌≡◌, refl, ◌≤◌, arith, ltb,
  if◌then◌else◌, get_or, take, drop, length, Bool-cases, inl, inr, ap, ◌∙◌, sym, length-take,
  length-reverse, reverse-reverse,
}
use mathlib.Core.List.{reverse}
use pxbee_open_close.Prelude.Bits.{Bytes, IsByte, has, tested_below, tested_below_lem}
use pxbee_open_close.Zcl.{
  Attribute, Store, WriteRec, attrib_flag_raw, attrib_flag_full, write_flag_assign,
}
use pxbee_open_close.Zcl.Types.{sizeof_type, is_24bit, logical_boolean, signed_24bit}
use pxbee_open_close.Zcl.Types.Sizes.{IsFixed, sizeof_type-IsFixed}
use pxbee_open_close.Zcl.Memory.{store_bytes, load, poke, load-poke}
use pxbee_open_close.Zcl.Encode.{written, encode_scalar, encode_attribute_value}
use pxbee_open_close.Zcl.Decode.{decode_attribute, convert_24bit}
use pxbee_open_close.Zcl.{status_success}

-- an attribute of a fixed size with a variable and without functions
pub record IsPlain (e : Attribute) (p n : ℕ) : Type 0 where
  pub at : e.value ≡ some p
  pub byte : IsByte e.type
  pub sized : sizeof_type e.type ≡ pos (suc n)
  pub base : has e.flags attrib_flag_full ≡ false

-- a record whose value is to be assigned, and can be a value of the attribute
pub record IsWritten (e : Attribute) (rec : WriteRec) (n : ℕ) : Type 0 where
  pub assigns : has rec.flags write_flag_assign ≡ true
  pub success : rec.status ≡ status_success
  pub long : suc n ≤ length rec.buffer
  pub boolean : (e.type == logical_boolean) ≡ true → has (get_or rec.buffer 0 0) 0xfe ≡ false

-- the bytes that the host keeps for those of a message
unfoldable pub host_bytes : Attribute → Bytes → ℕ → Bytes
host_bytes e buffer size =
    if has e.flags attrib_flag_raw
    then take size buffer
    else if is_24bit e.type
    then convert_24bit buffer (e.type == signed_24bit)
    else reverse (take size buffer)

pub decode_fixed :
    (e : Attribute) (p n : ℕ) (rec : WriteRec) (s : Store)
    → IsPlain e p n
    → IsWritten e rec n
    → decode_attribute e rec s ≡ (suc n, rec, store_bytes s p (host_bytes e rec.buffer (suc n)))
unfolding decode_attribute host_bytes
decode_fixed e p n rec s plain ready =
    let f : IsFixed e.type n = sizeof_type-IsFixed e.type n plain.byte plain.sized in
    rw (ready.assigns, plain.at, ready.success)
      elim (Bool-cases (is_24bit e.type)) [
        | inl three ↦ rw (three, f.three three) (ground arith)
        | inr other ↦
            rw (other, f.no_string, f.no_data, f.no_unknown, f.known, plain.sized)
              (ground (arith, ready.boolean))
      ]

load_all : (m : ℕ → ℕ) (p k : ℕ) (bs : Bytes) → length bs ≡ k → load (poke m p bs) p k ≡ bs
load_all m p k bs e = subst (λ j. load (poke m p bs) p j ≡ bs) e (load-poke m p bs)

load_tail :
    (m : ℕ → ℕ) (p x y z w : ℕ) → load (poke m p (x ∷ y ∷ z ∷ w ∷ [])) (p + 1) 3 ≡ y ∷ z ∷ w ∷ []
unfolding load
load_tail m p x y z w = ap (drop 1) (load-poke m p (x ∷ y ∷ z ∷ w ∷ []))

take_three :
    (bs : Bytes) → 3 ≤ length bs → take 3 bs ≡ get_or bs 0 0 ∷ get_or bs 1 0 ∷ get_or bs 2 0 ∷ []
take_three [] h = absurd (omega arith)
take_three (x ∷ []) h = absurd (omega arith)
take_three (x ∷ y ∷ []) h = absurd (omega arith)
take_three (x ∷ y ∷ z ∷ bs) h = refl

take_one : (bs : Bytes) → 1 ≤ length bs → take 1 bs ≡ get_or bs 0 0 ∷ []
take_one [] h = absurd (omega arith)
take_one (x ∷ bs) h = refl

abbrev normalised : ℕ → Bool
normalised b = has b 0xfe || ((if b == 0 then 0 else 1) == b)

normalised_table : tested_below normalised 256 ≡ true
unfolding tested_below
normalised_table = refl

boolean_byte : (b : ℕ) → IsByte b → has b 0xfe ≡ false → (if b == 0 then 0 else 1) ≡ b
boolean_byte b byte clear = ground (arith, tested_below_lem normalised 256 b normalised_table byte)

-- the bytes that the loads of the encoder find
module _ (m : ℕ → ℕ) (p : ℕ) (e : Attribute) (n : ℕ) (buffer : Bytes) where
  module _ (long : suc n ≤ length buffer) where
    taken : length (take (suc n) buffer) ≡ suc n
    taken = omega (arith, length-take (suc n) buffer)

    encode_raw :
        has e.flags attrib_flag_raw ≡ true
        → load (poke m p (host_bytes e buffer (suc n))) p (suc n) ≡ take (suc n) buffer
    unfolding host_bytes
    encode_raw raw = rw raw (load_all m p (suc n) (take (suc n) buffer) taken)

    encode_24bit :
        has e.flags attrib_flag_raw ≡ false
        → is_24bit e.type ≡ true
        → n ≡ 2
        → reverse (load (poke m p (host_bytes e buffer (suc n))) (p + 1) 3) ≡ take (suc n) buffer
    unfolding host_bytes convert_24bit
    encode_24bit cooked three size =
        rw
          (
            cooked,
            three,
            load_tail m p _ (get_or buffer 2 0) (get_or buffer 1 0) (get_or buffer 0 0),
            size,
          )
          (sym (take_three buffer (omega (arith, long, size))))

    encode_boolean :
        has e.flags attrib_flag_raw ≡ false
        → is_24bit e.type ≡ false
        → n ≡ 0
        → poke m p (host_bytes e buffer (suc n)) p ≡ get_or buffer 0 0
    unfolding host_bytes poke
    encode_boolean cooked other size =
        rw (cooked, other, size, take_one buffer (omega (arith, long))) (ground arith)

    encode_reversed :
        has e.flags attrib_flag_raw ≡ false
        → is_24bit e.type ≡ false
        → load (poke m p (host_bytes e buffer (suc n))) p (suc n) ≡ reverse (take (suc n) buffer)
    unfolding host_bytes
    encode_reversed cooked other =
        rw (cooked, other)
          (load_all m p (suc n) (reverse (take (suc n) buffer))
            (length-reverse (take (suc n) buffer) ∙ taken))

not_three : (type n : ℕ) → IsFixed type n → n ≡ 0 → is_24bit type ≡ false
not_three type n f none_ = elim (Bool-cases (is_24bit type)) [
  | inl three ↦ absurd (omega (arith, f.three three))
  | inr other ↦ other
]

scalar_fixed :
    (m : ℕ → ℕ) (room : ℕ) (e : Attribute) (p n : ℕ) (buffer : Bytes)
    → IsPlain e p n
    → suc n ≤ room
    → suc n ≤ length buffer
    → ((e.type == logical_boolean) ≡ true → has (get_or buffer 0 0) 0xfe ≡ false)
    → IsByte (get_or buffer 0 0)
    → encode_scalar (poke m p (host_bytes e buffer (suc n))) room e.type e.flags p
      ≡ written (take (suc n) buffer)
unfolding encode_scalar
scalar_fixed m room e p n buffer plain fits long boolean first =
    let f : IsFixed e.type n = sizeof_type-IsFixed e.type n plain.byte plain.sized in
    let roomy : ltb room (suc n) ≡ false = ground arith in
    rw (encode_scalar, plain.sized, roomy)
      elim (Bool-cases (has e.flags attrib_flag_raw)) [
        | inl raw ↦ rw (raw, encode_raw m p e n buffer long raw) refl
        | inr cooked ↦
            rw (cooked, f.no_string, f.known)
              elim (Bool-cases (e.type == logical_boolean)) [
                | inl bool ↦
                    let one : n ≡ 0 = f.one bool in
                    let at_p =
                      encode_boolean m p e n buffer long cooked (not_three e.type n f one) one in
                    rw (bool, at_p, boolean_byte (get_or buffer 0 0) first (boolean bool), one)
                      (ap written (sym (take_one buffer (omega (arith, long, one)))))
                | inr wide ↦ rw wide elim (Bool-cases (is_24bit e.type)) [
                  | inl three ↦
                      rw three
                        (ap written (encode_24bit m p e n buffer long cooked three (f.three three)))
                  | inr other ↦
                      rw (other, encode_reversed m p e n buffer long cooked other)
                        (ap written (reverse-reverse (take (suc n) buffer)))
                ]
              ]
      ]

pub encode_fixed :
    (depth room : ℕ) (e : Attribute) (p n : ℕ) (buffer : Bytes) (s : Store)
    → IsPlain e p n
    → suc n ≤ room
    → suc n ≤ length buffer
    → ((e.type == logical_boolean) ≡ true → has (get_or buffer 0 0) 0xfe ≡ false)
    → IsByte (get_or buffer 0 0)
    → encode_attribute_value depth room e (store_bytes s p (host_bytes e buffer (suc n)))
      ≡ (written (take (suc n) buffer), store_bytes s p (host_bytes e buffer (suc n)))
unfolding encode_attribute_value host_bytes
encode_fixed depth room e p n buffer s plain fits long boolean first =
    let f : IsFixed e.type n = sizeof_type-IsFixed e.type n plain.byte plain.sized in
    rw (encode_attribute_value, plain.sized, plain.at, plain.base)
      (rw (encode_attribute_value, f.no_array, f.no_struct, f.no_set, f.no_bag)
        (ap (λ x. (x, store_bytes s p (host_bytes e buffer (suc n))))
          (scalar_fixed s.byte_at room e p n buffer plain fits long boolean first)))

-- A value of a fixed size that a peer writes to an attribute without functions is what a later read
-- of this attribute sends, byte for byte: zcl_decode_attribute takes the bytes of the size, with
-- success, and from the memory that it leaves zcl_encode_attribute_value writes the same bytes into
-- any buffer that holds them, and leaves the memory as it is. This is so for raw attributes and for
-- those kept in the order of the host, for three-byte values kept in four, and for booleans.
pub encode-decode :
    (depth room : ℕ) (e : Attribute) (p n : ℕ) (rec : WriteRec) (s : Store)
    → IsPlain e p n
    → IsWritten e rec n
    → IsByte (get_or rec.buffer 0 0)
    → suc n ≤ room
    → (s' : Store) × (decode_attribute e rec s ≡ (suc n, rec, s'))
      × (encode_attribute_value depth room e s' ≡ (written (take (suc n) rec.buffer), s'))
encode-decode depth room e p n rec s plain ready first fits = (
  store_bytes s p (host_bytes e rec.buffer (suc n)),
  decode_fixed e p n rec s plain ready,
  encode_fixed depth room e p n rec.buffer s plain fits ready.long ready.boolean first,
)
