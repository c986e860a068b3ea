-- ===== src/Bitcask/Reads.antt =====
-- Reads of a file that grows: `read_value` and `get` of src/storage/bitcask.rs.
use raft_rust.Base.{
  ℕ, zero, suc, ◌+◌, ◌≤◌, ◌≡◌, refl, sym, ap, ◌∙◌, Option, some, [], ◌∷◌, ◌++◌, length, take, drop,
  ok, ◌>>=◌, u32_be, >>=-eq-ok, take_of_length-le, length-append, drop-append, append_assoc, ltb,
  arith, Bool-cases, Option-cases, inl, inr,
}
use raft_rust.KeyMap
use raft_rust.KeyMap.{get-insert_same, get-insert_other, get-remove_same, get-remove_other}
use raft_rust.KeyMap.Order.{bytes_keys}
use raft_rust.Log.Entry.{Bytes}
use raft_rust.Bitcask.{value_length, ValueLocation, KeyDir, encode_entry, read_value, get}
use raft_rust.Bitcask.Entries.{length-encode_entry}

slice-append :
    (offset n : ℕ) (xs ys : Bytes)
    → offset + n ≤ length xs
    → take n (drop offset (xs ++ ys)) ≡ take n (drop offset xs)
slice-append zero zero xs ys fits = refl
slice-append zero (suc n) [] ys fits = absurd (omega arith)
slice-append zero (suc n) (x ∷ xs) ys fits =
    ap (λ l. x ∷ l) (slice-append zero n xs ys (omega arith))
slice-append (suc offset) zero [] ys fits = refl
slice-append (suc offset) (suc n) [] ys fits = absurd (omega arith)
slice-append (suc offset) n (x ∷ xs) ys fits = slice-append offset n xs ys (omega arith)

-- What was read stays as the file grows.
pub read_value-append :
    (file more : Bytes) (location : ValueLocation) {value : Bytes}
    → read_value file location ≡ ok value
    → read_value (file ++ more) location ≡ ok value
unfolding read_value
read_value-append file more location found = elim (Bool-cases (ltb 0 location.length_of)) [
  | inr empty ↦
      let none_read : location.length_of ≡ 0 = ground arith in
      rw (read_value, none_read) (rw none_read at found)
  | inl some_bytes ↦
      let within : location.offset + location.length_of ≤ length file = ground arith in
      ground (
        arith,
        slice-append location.offset location.length_of file more within,
        length-append file more,
      )
]

-- The value that an entry puts behind a file is read back.
pub read_value-last :
    (file key value : Bytes)
    → read_value
        (file ++ encode_entry key (some value))
        (record { offset = length file + 8 + length key; length_of = length value })
      ≡ ok value
unfolding read_value encode_entry
read_value-last file key value =
    let all = length-append file (encode_entry key (some value)) in
    let size = length-encode_entry key (some value) in
    let front : Bytes = u32_be (length key) ++ value_length (some value) ++ key in
    let place : length file + 8 + length key ≡ length (file ++ front) =
      omega (arith, length-append file front) in
    let behind : drop (length file + 8 + length key) (file ++ encode_entry key (some value))
        ≡ value =
      ap (λ n. drop n (file ++ encode_entry key (some value))) place
      ∙ ap (drop (length (file ++ front))) (sym (append_assoc file front value))
      ∙ drop-append (file ++ front) value in
    let taken : take (length value)
          (drop (length file + 8 + length key) (file ++ encode_entry key (some value)))
        ≡ value =
      ap (take (length value)) behind ∙ take_of_length-le (length value) value (omega arith) in
    ground (arith, taken, all, size)

pub get-append :
    (file more : Bytes) (keydir : KeyDir) (key : Bytes) {o : Option Bytes}
    → get (record { file = file; keydir = keydir }) key ≡ ok o
    → get (record { file = file ++ more; keydir = keydir }) key ≡ ok o
unfolding get KeyMap.get
get-append file more keydir key {o} found = elim (Option-cases (KeyMap.get key keydir)) [
  | inl missing ↦ ground arith
  | inr (location, here) ↦
      let called : (read_value file location >>= λ value. ok (some value)) ≡ ok o = ground arith in
      let (value, was_read, same) = >>=-eq-ok (read_value file location) _ called in
      ground (arith, read_value-append file more location was_read)
]
