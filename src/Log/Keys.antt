-- ===== src/Log/Keys.antt =====
-- The keys of the log in the engine: `Key` and `Key::encode` of src/raft/log.rs.
use raft_rust.Base.{
  ℕ, zero, suc, ◌*◌, ◌/◌, ◌%◌, ◌<◌, ◌≡◌, refl, sym, ◌∙◌, Bool, ◌&&◌, ◌||◌, [], ◌∷◌, ◌++◌, length,
  length-append, ltb, ◌==◌, arith, u64_limit,
}
use raft_rust.KeyMap.Order.{bytes_less, bytes_equal}
use raft_rust.Log.Entry.{Bytes}

pub data Key : Type 0 where
  entry : ℕ → Key
  term_vote commit_index snapshot_meta snapshot_data : Key

-- The `k` low bytes of a number, the most significant first.
unfoldable pub be_bytes : ℕ → ℕ → Bytes
be_bytes zero n = []
be_bytes (suc k) n = be_bytes k (n / 256) ++ (n % 256) ∷ []

unfoldable pub encode_key : Key → Bytes
unfolding be_bytes
encode_key (Key.entry index) = 0 ∷ be_bytes 8 index
encode_key Key.term_vote = 1 ∷ []
encode_key Key.commit_index = 2 ∷ []
encode_key Key.snapshot_meta = 3 ∷ []
encode_key Key.snapshot_data = 4 ∷ []

-- 256 ^ k
limit : ℕ → ℕ
limit zero = 1
limit (suc k) = 256 * limit k

length-be_bytes : (k n : ℕ) → length (be_bytes k n) ≡ k
unfolding be_bytes
length-be_bytes zero n = refl
length-be_bytes (suc k) n =
    omega
      (arith, length-append (be_bytes k (n / 256)) ((n % 256) ∷ []), length-be_bytes k (n / 256))

bytes_less-append_last :
    (xs ys : Bytes) (x y : ℕ)
    → length xs ≡ length ys
    → bytes_less (xs ++ x ∷ []) (ys ++ y ∷ []) ≡ bytes_less xs ys || (bytes_equal xs ys && ltb x y)
unfolding bytes_less bytes_equal
bytes_less-append_last [] [] x y same = ground arith
bytes_less-append_last [] (b ∷ ys) x y same = absurd (omega arith)
bytes_less-append_last (a ∷ xs) [] x y same = absurd (omega arith)
bytes_less-append_last (a ∷ xs) (b ∷ ys) x y same =
    let shorter : length xs ≡ length ys = omega arith in
    ground (arith, bytes_less-append_last xs ys x y shorter)

bytes_equal-append_last :
    (xs ys : Bytes) (x y : ℕ)
    → length xs ≡ length ys
    → bytes_equal (xs ++ x ∷ []) (ys ++ y ∷ []) ≡ bytes_equal xs ys && x == y
unfolding bytes_equal
bytes_equal-append_last [] [] x y same = ground arith
bytes_equal-append_last [] (b ∷ ys) x y same = absurd (omega arith)
bytes_equal-append_last (a ∷ xs) [] x y same = absurd (omega arith)
bytes_equal-append_last (a ∷ xs) (b ∷ ys) x y same =
    let shorter : length xs ≡ length ys = omega arith in
    ground (arith, bytes_equal-append_last xs ys x y shorter)

digits :
    (a b : ℕ)
    → ((ltb (a / 256) (b / 256) || (a / 256 == b / 256 && ltb (a % 256) (b % 256))) ≡ ltb a b)
      × ((a / 256 == b / 256 && a % 256 == b % 256) ≡ a == b)
digits a b = (ground arith, ground arith)

-- Numbers that fit into `k` bytes are equal or in order as their bytes are.
bytes_order-be_bytes :
    (k a b : ℕ)
    → a < limit k
    → b < limit k
    → (bytes_less (be_bytes k a) (be_bytes k b) ≡ ltb a b)
      × (bytes_equal (be_bytes k a) (be_bytes k b) ≡ a == b)
unfolding be_bytes limit bytes_less bytes_equal
bytes_order-be_bytes zero a b fits_a fits_b = (ground arith, ground arith)
bytes_order-be_bytes (suc k) a b fits_a fits_b =
    let high = bytes_order-be_bytes k (a / 256) (b / 256) (omega arith) (omega arith) in
    let same = length-be_bytes k (a / 256) ∙ sym (length-be_bytes k (b / 256)) in
    (
      bytes_less-append_last (be_bytes k (a / 256)) (be_bytes k (b / 256)) (a % 256) (b % 256) same
          ∙ rw (high.0, high.1) (digits a b).0,
      bytes_equal-append_last (be_bytes k (a / 256)) (be_bytes k (b / 256)) (a % 256) (b % 256) same
          ∙ rw (high.1) (digits a b).1,
    )

-- The place of a kind of keys.
rank : Key → ℕ
rank (Key.entry index) = 0
rank Key.term_vote = 1
rank Key.commit_index = 2
rank Key.snapshot_meta = 3
rank Key.snapshot_data = 4

-- The order that the engine is to have: entries by their indices, then the metadata.
unfoldable pub key_less : Key → Key → Bool
unfolding rank
key_less (Key.entry i) (Key.entry j) = ltb i j
key_less a b = ltb (rank a) (rank b)

-- The index of an entry's key is a `u64`.
abbrev pub IsU64 : Key → Type 0
IsU64 (Key.entry index) = index < u64_limit
IsU64 _ = Unit

-- The bytes of two keys, with `u64` indices, are in the engine's order exactly where the keys are in
-- theirs: entries by their indices, and every entry before the metadata.
pub bytes_less-encode_key :
    (a b : Key) → IsU64 a → IsU64 b → bytes_less (encode_key a) (encode_key b) ≡ key_less a b
unfolding encode_key key_less rank bytes_less limit u64_limit
bytes_less-encode_key (Key.entry i) (Key.entry j) fits_i fits_j =
    ground (arith, (bytes_order-be_bytes 8 i j (omega arith) (omega arith)).0)
bytes_less-encode_key (Key.entry i) Key.term_vote fits_i fits_j = refl
bytes_less-encode_key (Key.entry i) Key.commit_index fits_i fits_j = refl
bytes_less-encode_key (Key.entry i) Key.snapshot_meta fits_i fits_j = refl
bytes_less-encode_key (Key.entry i) Key.snapshot_data fits_i fits_j = refl
bytes_less-encode_key Key.term_vote (Key.entry i) fits_i fits_j = refl
bytes_less-encode_key Key.term_vote Key.term_vote fits_i fits_j = refl
bytes_less-encode_key Key.term_vote Key.commit_index fits_i fits_j = refl
bytes_less-encode_key Key.term_vote Key.snapshot_meta fits_i fits_j = refl
bytes_less-encode_key Key.term_vote Key.snapshot_data fits_i fits_j = refl
bytes_less-encode_key Key.commit_index (Key.entry i) fits_i fits_j = refl
bytes_less-encode_key Key.commit_index Key.term_vote fits_i fits_j = refl
bytes_less-encode_key Key.commit_index Key.commit_index fits_i fits_j = refl
bytes_less-encode_key Key.commit_index Key.snapshot_meta fits_i fits_j = refl
bytes_less-encode_key Key.commit_index Key.snapshot_data fits_i fits_j = refl
bytes_less-encode_key Key.snapshot_meta (Key.entry i) fits_i fits_j = refl
bytes_less-encode_key Key.snapshot_meta Key.term_vote fits_i fits_j = refl
bytes_less-encode_key Key.snapshot_meta Key.commit_index fits_i fits_j = refl
bytes_less-encode_key Key.snapshot_meta Key.snapshot_meta fits_i fits_j = refl
bytes_less-encode_key Key.snapshot_meta Key.snapshot_data fits_i fits_j = refl
bytes_less-encode_key Key.snapshot_data (Key.entry i) fits_i fits_j = refl
bytes_less-encode_key Key.snapshot_data Key.term_vote fits_i fits_j = refl
bytes_less-encode_key Key.snapshot_data Key.commit_index fits_i fits_j = refl
bytes_less-encode_key Key.snapshot_data Key.snapshot_meta fits_i fits_j = refl
bytes_less-encode_key Key.snapshot_data Key.snapshot_data fits_i fits_j = refl
