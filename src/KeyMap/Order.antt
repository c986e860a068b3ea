-- ===== src/KeyMap/Order.antt =====
-- The orders of the keys: of numbers, and of byte strings as `Ord` of `Vec<u8>` and `String` has it.
use raft_rust.Base.{
  ℕ, ◌≡◌, ◌↔◌, refl, Bool, true, false, ◌&&◌, ◌||◌, [], ◌∷◌, ltb, ◌==◌, ==_iff, arith,
}
use raft_rust.Log.Entry.{Bytes}
use raft_rust.KeyMap.{Keys}

instance abbrev pub number_keys : Keys ℕ
number_keys = record {
  less = ltb;
  equal = ◌==◌;
  equal_iff = ==_iff;
  less_irrefl = λ a. ground arith;
  less_trans = λ a b c p q. ground arith;
  less_total = λ a b p q. ground arith;
}

-- The lexicographic order.
unfoldable pub bytes_less : Bytes → Bytes → Bool
bytes_less a [] = false
bytes_less [] (y ∷ b) = true
bytes_less (x ∷ a) (y ∷ b) = let rest = bytes_less a b in ltb x y || (x == y && rest)

unfoldable pub bytes_equal : Bytes → Bytes → Bool
bytes_equal [] [] = true
bytes_equal [] (y ∷ b) = false
bytes_equal (x ∷ a) [] = false
bytes_equal (x ∷ a) (y ∷ b) = x == y && bytes_equal a b

pub bytes_equal_iff : (a b : Bytes) → (bytes_equal a b ≡ true) ↔ (a ≡ b)
unfolding bytes_equal
bytes_equal_iff [] [] = ground arith
bytes_equal_iff [] (y ∷ b) = ground arith
bytes_equal_iff (x ∷ a) [] = ground arith
bytes_equal_iff (x ∷ a) (y ∷ b) = let rest = bytes_equal_iff a b in ground (arith, rest)

pub bytes_less_irrefl : (a : Bytes) → bytes_less a a ≡ false
unfolding bytes_less
bytes_less_irrefl [] = refl
bytes_less_irrefl (x ∷ a) = ground (arith, bytes_less_irrefl a)

pub bytes_less_trans :
    (a b c : Bytes) → bytes_less a b ≡ true → bytes_less b c ≡ true → bytes_less a c ≡ true
unfolding bytes_less
bytes_less_trans a b [] p q = absurd (ground arith)
bytes_less_trans a [] (z ∷ c) p q = absurd (ground arith)
bytes_less_trans [] (y ∷ b) (z ∷ c) p q = refl
bytes_less_trans (x ∷ a) (y ∷ b) (z ∷ c) p q = grind (arith, bytes_less_trans a b c)

pub bytes_less_total :
    (a b : Bytes) → bytes_less a b ≡ false → bytes_equal a b ≡ false → bytes_less b a ≡ true
unfolding bytes_less bytes_equal
bytes_less_total [] [] p q = absurd (ground arith)
bytes_less_total [] (y ∷ b) p q = absurd (ground arith)
bytes_less_total (x ∷ a) [] p q = refl
bytes_less_total (x ∷ a) (y ∷ b) p q = grind (arith, bytes_less_total a b)

instance abbrev pub bytes_keys : Keys Bytes
bytes_keys = record {
  less = bytes_less;
  equal = bytes_equal;
  equal_iff = bytes_equal_iff;
  less_irrefl = bytes_less_irrefl;
  less_trans = bytes_less_trans;
  less_total = bytes_less_total;
}
