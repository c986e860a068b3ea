-- ===== src/Tests/Storage.antt =====
-- The theorems on the log-structured engine and on the frames, at small engines and messages.
use raft_rust.Base.{
  u64_limit, ℕ, zero, suc, ◌+◌, ◌^◌, ◌≡◌, ◌<◌, refl, Option, none, some, List, [], ◌∷◌, ◌++◌,
  length, take, ok, err, invalid_data, arith,
}
use raft_rust.KeyMap.Order.{bytes_less}
use raft_rust.Log.Keys.{Key, encode_key, key_less, bytes_less-encode_key}
use raft_rust.KeyMap.Order.{bytes_keys}
use raft_rust.Codec.{Codec}
use raft_rust.Log.Entry.{Bytes}
use raft_rust.Message.{Request}
use raft_rust.Bitcask.{BitCask, encode_entry, build_keydir, get, set, delete, compact}
use raft_rust.Bitcask.Scan.{Record, Holds, bytes_of, index_of, build_keydir-torn}
use raft_rust.Bitcask.Open.{build_keydir-ends}
use raft_rust.Bitcask.Laws.{value_of, updates-Holds, get-Holds}
use raft_rust.Bitcask.Compaction.{get-compact, IsOnce}
use raft_rust.Wire.{WireMsg, frame_limit, encode, read_msg, read_msg-encode, read_msg-too_large}

abbrev empty : BitCask
empty = record { file = []; keydir = [] }

empty-Holds : Holds empty []
unfolding bytes_of index_of
empty-Holds = record { written = refl; fit = tt; indexed = refl }

abbrev one_key : BitCask
one_key = set empty (1 ∷ []) (5 ∷ 6 ∷ [])

abbrev one_record : List Record
one_record = (1 ∷ [], some (5 ∷ 6 ∷ [])) ∷ []

one_key-Holds : Holds one_key one_record
one_key-Holds =
    (updates-Holds empty [] (1 ∷ []) empty-Holds (omega arith)).1 (5 ∷ 6 ∷ []) (omega arith)

updates-Holds_example :
    Holds (delete one_key (1 ∷ [])) (one_record ++ (1 ∷ [], none) ∷ [])
    × ((value : Bytes)
        → length value < 2 ^ 31
        → Holds (set one_key (1 ∷ []) value) (one_record ++ (1 ∷ [], some value) ∷ []))
updates-Holds_example = updates-Holds one_key one_record (1 ∷ []) one_key-Holds (omega arith)

get-Holds_example : get one_key (1 ∷ []) ≡ ok (value_of (1 ∷ []) one_record none)
get-Holds_example = get-Holds one_key one_record (1 ∷ []) one_key-Holds

build_keydir-torn_example :
    build_keydir (one_key.file ++ take 9 (encode_entry (2 ∷ []) (some (7 ∷ [])))) ≡ some one_key
unfolding encode_entry
build_keydir-torn_example =
    build_keydir-torn one_key one_record (2 ∷ []) (some (7 ∷ [])) 9 one_key-Holds
      (omega arith, omega arith) (omega arith)

build_keydir-ends_example : (b : BitCask) × (build_keydir (0 ∷ 0 ∷ 0 ∷ []) ≡ some b)
build_keydir-ends_example = build_keydir-ends (0 ∷ 0 ∷ 0 ∷ [])

get-compact_example :
    (c : BitCask) × (live : List Record) × (compact one_key ≡ ok c)
    × Holds c live
    × ((key : Bytes)
        → (get c key ≡ get one_key key)
          × ((v : Option Bytes) × (get one_key key ≡ ok v) × IsOnce key live v))
get-compact_example = get-compact one_key one_record one_key-Holds

-- A serializer that knows a read of a client, and one whose texts are too long for a frame.
abbrev reads : Codec WireMsg
reads = record {
  encode = λ msg. 4 ∷ 2 ∷ [];
  decode = λ bytes. some (WireMsg.client 1 (Request.read (2 ∷ [])));
}

read_msg-encode_example :
    read_msg reads (encode reads (WireMsg.client 1 (Request.read (2 ∷ []))) ++ 9 ∷ [])
    ≡ (9 ∷ [], ok (WireMsg.client 1 (Request.read (2 ∷ []))))
read_msg-encode_example =
    read_msg-encode reads (WireMsg.client 1 (Request.read (2 ∷ []))) (9 ∷ []) refl (omega arith)

zeros : ℕ → Bytes
zeros zero = []
zeros (suc n) = 0 ∷ zeros n

length-zeros : (n : ℕ) → length (zeros n) ≡ n
unfolding zeros
length-zeros zero = refl
length-zeros (suc n) = omega (arith, length-zeros n)

abbrev long : Codec WireMsg
long = record { encode = λ msg. zeros (frame_limit + 1); decode = λ bytes. none }

read_msg-too_large_example :
    read_msg long (encode long (WireMsg.client 1 Request.status) ++ [])
    ≡ (zeros (frame_limit + 1) ++ [], err invalid_data)
read_msg-too_large_example =
    read_msg-too_large long (WireMsg.client 1 Request.status) []
      (omega (arith, length-zeros (frame_limit + 1)))
      (omega (arith, length-zeros (frame_limit + 1)))

bytes_less-encode_key_example :
    bytes_less (encode_key (Key.entry 255)) (encode_key (Key.entry 256))
    ≡ key_less (Key.entry 255) (Key.entry 256)
unfolding u64_limit
bytes_less-encode_key_example =
    bytes_less-encode_key (Key.entry 255) (Key.entry 256) (omega arith) (omega arith)
