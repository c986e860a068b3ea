-- ===== src/Bitcask/Entries.antt =====
-- An entry of the file, as it is written and read back (src/storage/bitcask.rs).
use raft_rust.Base.{
  ℕ, zero, suc, ◌+◌, ◌/◌, ◌%◌, ◌^◌, ◌<◌, ◌≡◌, refl, true, false, Option, none, some, [], ◌++◌,
  length, take, from_be, from_be-u32_be, length-append, length-take, take-append, append_assoc, leb,
  arith,
}
use raft_rust.Log.Entry.{Bytes}
use raft_rust.Bitcask.{ValueLocation, parse_body, value_bytes, encode_entry, parse_entry}

-- The lengths fit into their fields.
abbrev pub Fits : Bytes → Option Bytes → Type 0
Fits key value = (length key < 2 ^ 32) × (length (value_bytes value) < 2 ^ 31)

pub length-encode_entry :
    (key : Bytes) (value : Option Bytes)
    → length (encode_entry key value) ≡ 8 + length key + length (value_bytes value)
unfolding encode_entry
length-encode_entry key none = omega (arith, length-append key (value_bytes none))
length-encode_entry key (some value) = omega (arith, length-append key value)

-- Where the value of an entry that starts at `offset` stands.
unfoldable pub location_at : ℕ → Bytes → Option Bytes → Option ValueLocation
location_at offset key none = none
location_at offset key (some value) =
    some (record { offset = offset + 8 + length key; length_of = length value })

parse_whole :
    (offset : ℕ) (key value tail : Bytes) (value_len : ℕ)
    → value_len ≡ length value
    → parse_body offset (length key) false value_len ((key ++ value) ++ tail)
      ≡ some (record {
        key = key;
        location = some (record { offset = offset + 8 + length key; length_of = value_len });
        size = 8 + length key + value_len;
      })
unfolding parse_body
parse_whole offset key value tail value_len same = ground (
  arith,
  append_assoc key value tail,
  take-append key (value ++ tail),
  length-append key (value ++ tail),
  length-append value tail,
)

parse_tombstone :
    (offset : ℕ) (key tail : Bytes) (value_len : ℕ)
    → parse_body offset (length key) true value_len ((key ++ []) ++ tail)
      ≡ some (record { key = key; location = none; size = 8 + length key + 0 })
unfolding parse_body
parse_tombstone offset key tail value_len =
    ground (arith, append_assoc key [] tail, take-append key tail, length-append key tail)

pub parse_entry-encode_entry :
    (offset : ℕ) (key : Bytes) (value : Option Bytes) (tail : Bytes)
    → Fits key value
    → parse_entry offset (encode_entry key value ++ tail)
      ≡ some (record {
        key = key;
        location = location_at offset key value;
        size = 8 + length key + length (value_bytes value);
      })
unfolding parse_entry encode_entry location_at
parse_entry-encode_entry offset key none tail (key_fits, value_fits) =
    rw (from_be-u32_be (length key) key_fits)
      (parse_tombstone offset key tail (from_be 255 255 255 255))
parse_entry-encode_entry offset key (some value) tail (key_fits, value_fits) =
    let positive : leb 128 (length value / 2 ^ 24 % 256) ≡ false = ground arith in
    rw (from_be-u32_be (length key) key_fits, from_be-u32_be (length value) (omega arith), positive)
      (parse_whole offset key value tail (length value) refl)

torn_tombstone :
    (offset m : ℕ) (key : Bytes) (value_len : ℕ)
    → m < length key
    → parse_body offset (length key) true value_len (take m (key ++ [])) ≡ none
unfolding parse_body
torn_tombstone offset m key value_len short =
    ground (arith, length-take m (key ++ []), length-append key [])

torn_value :
    (offset m : ℕ) (key value : Bytes)
    → m < length key + length value
    → parse_body offset (length key) false (length value) (take m (key ++ value)) ≡ none
unfolding parse_body
torn_value offset m key value short =
    ground (arith, length-take m (key ++ value), length-append key value)

-- An entry that was cut short is not read back.
pub parse_entry-torn :
    (offset n : ℕ) (key : Bytes) (value : Option Bytes)
    → Fits key value
    → n < 8 + length key + length (value_bytes value)
    → parse_entry offset (take n (encode_entry key value)) ≡ none
unfolding parse_entry encode_entry
parse_entry-torn offset zero key value fits short = refl
parse_entry-torn offset (suc zero) key none fits short = refl
parse_entry-torn offset (suc zero) key (some value) fits short = refl
parse_entry-torn offset (suc (suc zero)) key none fits short = refl
parse_entry-torn offset (suc (suc zero)) key (some value) fits short = refl
parse_entry-torn offset (suc (suc (suc zero))) key none fits short = refl
parse_entry-torn offset (suc (suc (suc zero))) key (some value) fits short = refl
parse_entry-torn offset (suc (suc (suc (suc zero)))) key none fits short = refl
parse_entry-torn offset (suc (suc (suc (suc zero)))) key (some value) fits short = refl
parse_entry-torn offset (suc (suc (suc (suc (suc zero))))) key none fits short = refl
parse_entry-torn offset (suc (suc (suc (suc (suc zero))))) key (some value) fits short = refl
parse_entry-torn offset (suc (suc (suc (suc (suc (suc zero)))))) key none fits short = refl
parse_entry-torn offset (suc (suc (suc (suc (suc (suc zero)))))) key (some value) fits short = refl
parse_entry-torn offset (suc (suc (suc (suc (suc (suc (suc zero))))))) key none fits short = refl
parse_entry-torn offset (suc (suc (suc (suc (suc (suc (suc zero))))))) key (some value) fits short =
    refl
parse_entry-torn offset (suc (suc (suc (suc (suc (suc (suc (suc m)))))))) key none
      (key_fits, value_fits) short =
    rw (from_be-u32_be (length key) key_fits)
      (torn_tombstone offset m key (from_be 255 255 255 255) (omega arith))
parse_entry-torn offset (suc (suc (suc (suc (suc (suc (suc (suc m)))))))) key (some value)
      (key_fits, value_fits) short =
    let positive : leb 128 (length value / 2 ^ 24 % 256) ≡ false = ground arith in
    rw (from_be-u32_be (length key) key_fits, from_be-u32_be (length value) (omega arith), positive)
      (torn_value offset m key value (omega arith))
