-- ===== src/KeyMap.antt =====
-- `BTreeMap` and `HashMap` as the program uses them (raft/kv.rs, raft/session.rs and
-- storage/bitcask.rs under src/): an association list in the order of the keys. A `HashMap`
-- iterates in any order; here it is that of the keys too.
pub mod Order
use raft_rust.Base.{
  ◌≡◌, ◌≢◌, ◌↔◌, ◌⊎◌, inl, inr, refl, sym, subst, ◌∙◌, Bool, true, false, Option, none, some, List,
  [], ◌∷◌, if◌then◌else◌, arith, Bool-cases,
}

-- The order of the keys.
pub record Keys (K : Type 0) : Type 0 where
  pub less : K → K → Bool
  pub equal : K → K → Bool
  pub equal_iff : (a b : K) → (equal a b ≡ true) ↔ (a ≡ b)
  pub less_irrefl : (a : K) → less a a ≡ false
  pub less_trans : (a b c : K) → less a b ≡ true → less b c ≡ true → less a c ≡ true
  pub less_total : (a b : K) → less a b ≡ false → equal a b ≡ false → less b a ≡ true

module _ {K : Type 0} ⦃o : Keys K⦄ where
  pub equal_refl : (key : K) → o.equal key key ≡ true
  equal_refl key = (o.equal_iff key key).1 refl

  equal_other : (j key k : K) → o.equal j key ≡ false → o.equal key k ≡ true → o.equal j k ≡ false
  equal_other j key k apart same = elim (Bool-cases (o.equal j k)) [
    | inr other ↦ other
    | inl found ↦
        let met : j ≡ key = (o.equal_iff j k).0 found ∙ sym ((o.equal_iff key k).0 same) in
        absurd (ground (arith, (o.equal_iff j key).1 met))
  ]

abbrev or_else : {V : Type 0} → Option V → Option V → Option V
or_else (some v) w = some v
or_else none w = w

module _ {K V : Type 0} ⦃o : Keys K⦄ where
  unfoldable pub get : K → List (K × V) → Option V
  get key [] = none
  get key ((k, v) ∷ entries) = if o.equal key k then some v else get key entries

  unfoldable pub insert : K → V → List (K × V) → List (K × V)
  insert key value [] = (key, value) ∷ []
  insert key value ((k, v) ∷ entries) =
      let rest = insert key value entries in
      if o.equal key k
      then (key, value) ∷ entries
      else if o.less key k
      then (key, value) ∷ (k, v) ∷ entries
      else (k, v) ∷ rest

  unfoldable pub remove : K → List (K × V) → List (K × V)
  remove key [] = []
  remove key ((k, v) ∷ entries) =
      let rest = remove key entries in if o.equal key k then rest else (k, v) ∷ rest

  -- `iter.collect()`, which inserts one entry after the other
  unfoldable pub collect : List (K × V) → List (K × V) → List (K × V)
  unfolding insert
  collect m [] = m
  collect m ((k, v) ∷ entries) = collect (insert k v m) entries

  pub get-insert_same :
      (key : K) (value : V) (m : List (K × V)) → get key (insert key value m) ≡ some value
  unfolding get insert
  get-insert_same key value [] = ground (arith, equal_refl key)
  get-insert_same key value ((k, v) ∷ m) =
      ground (arith, equal_refl key, get-insert_same key value m)

  pub get-insert_other :
      (j key : K) (value : V) (m : List (K × V))
      → o.equal j key ≡ false
      → get j (insert key value m) ≡ get j m
  unfolding get insert
  get-insert_other j key value [] apart = ground arith
  get-insert_other j key value ((k, v) ∷ m) apart = elim (Bool-cases (o.equal key k)) [
    | inl same ↦ ground (arith, equal_other j key k apart same)
    | inr other ↦ ground (arith, get-insert_other j key value m apart)
  ]

  pub get-remove_same : (key : K) (m : List (K × V)) → get key (remove key m) ≡ none
  unfolding get remove
  get-remove_same key [] = refl
  get-remove_same key ((k, v) ∷ m) = ground (arith, get-remove_same key m)

  pub get-remove_other :
      (j key : K) (m : List (K × V)) → o.equal j key ≡ false → get j (remove key m) ≡ get j m
  unfolding get remove
  get-remove_other j key [] apart = refl
  get-remove_other j key ((k, v) ∷ m) apart = elim (Bool-cases (o.equal key k)) [
    | inl same ↦ ground (arith, equal_other j key k apart same, get-remove_other j key m apart)
    | inr other ↦ ground (arith, get-remove_other j key m apart)
  ]

  -- The keys ascend, so that none stands twice.
  abbrev pub IsAbove : K → List (K × V) → Type 0
  IsAbove key [] = Unit
  IsAbove key ((k, v) ∷ m) = (o.less key k ≡ true) × IsAbove key m

  abbrev pub IsAscending : List (K × V) → Type 0
  IsAscending [] = Unit
  IsAscending ((k, v) ∷ m) = IsAbove k m × IsAscending m

  pub get-IsAbove : (key : K) (m : List (K × V)) → IsAbove key m → get key m ≡ none
  unfolding get
  get-IsAbove key [] above = refl
  get-IsAbove key ((k, v) ∷ m) (lt, above) = elim (Bool-cases (o.equal key k)) [
    | inr other ↦ ground (arith, get-IsAbove key m above)
    | inl same ↦
        let wrong : o.less key key ≡ true =
          subst (λ x. o.less key x ≡ true) (sym ((o.equal_iff key k).0 same)) lt in
        absurd (ground (arith, o.less_irrefl key))
  ]

  IsAbove-trans : (a b : K) (m : List (K × V)) → o.less a b ≡ true → IsAbove b m → IsAbove a m
  IsAbove-trans a b [] lt above = tt
  IsAbove-trans a b ((k, v) ∷ m) lt (next_lt, above) =
      (o.less_trans a b k lt next_lt, IsAbove-trans a b m lt above)

  insert-IsAbove :
      (a key : K) (value : V) (m : List (K × V))
      → o.less a key ≡ true
      → IsAbove a m
      → IsAbove a (insert key value m)
  unfolding insert
  insert-IsAbove a key value [] lt above = (lt, tt)
  insert-IsAbove a key value ((k, v) ∷ m) lt (head_lt, above) =
      grind (arith, insert-IsAbove a key value m lt above)

  pub insert-IsAscending :
      (key : K) (value : V) (m : List (K × V)) → IsAscending m → IsAscending (insert key value m)
  unfolding insert
  insert-IsAscending key value [] sorted = (tt, tt)
  insert-IsAscending key value ((k, v) ∷ m) (above, sorted) = elim (Bool-cases (o.equal key k)) [
    | inl same ↦
        let met = (o.equal_iff key k).0 same in
        rw same (subst (λ x. IsAbove x m) (sym met) above, sorted)
    | inr other ↦ elim (Bool-cases (o.less key k)) [
      | inl first ↦ rw (other, first) ((first, IsAbove-trans key k m first above), (above, sorted))
      | inr later ↦
          rw (other, later)
            (
              insert-IsAbove k key value m (o.less_total key k later other) above,
              insert-IsAscending key value m sorted,
            )
    ]
  ]

  remove-IsAbove : (a key : K) (m : List (K × V)) → IsAbove a m → IsAbove a (remove key m)
  unfolding remove
  remove-IsAbove a key [] above = tt
  remove-IsAbove a key ((k, v) ∷ m) (lt, above) = grind (arith, remove-IsAbove a key m above)

  pub remove-IsAscending : (key : K) (m : List (K × V)) → IsAscending m → IsAscending (remove key m)
  unfolding remove
  remove-IsAscending key [] sorted = tt
  remove-IsAscending key ((k, v) ∷ m) (above, sorted) = elim (Bool-cases (o.equal key k)) [
    | inl same ↦ rw same (remove-IsAscending key m sorted)
    | inr other ↦ rw other (remove-IsAbove k key m above, remove-IsAscending key m sorted)
  ]

  -- Collecting entries with ascending keys: they take precedence over what was there.
  get-collect_onto :
      (j : K) (m entries : List (K × V))
      → IsAscending entries
      → get j (collect m entries) ≡ or_else (get j entries) (get j m)
  unfolding get collect
  get-collect_onto j m [] sorted = refl
  get-collect_onto j m ((k, v) ∷ entries) (above, sorted) = elim (Bool-cases (o.equal j k)) [
    | inr other ↦
        get-collect_onto j (insert k v m) entries sorted
        ∙ rw (other, get-insert_other j k v m other) refl
    | inl same ↦
        let met = (o.equal_iff j k).0 same in
        let gone : get j entries ≡ none =
          subst (λ x. get x entries ≡ none) (sym met) (get-IsAbove k entries above) in
        let put : get j (insert k v m) ≡ some v =
          subst (λ x. get x (insert k v m) ≡ some v) (sym met) (get-insert_same k v m) in
        get-collect_onto j (insert k v m) entries sorted ∙ rw (gone, put, same) refl
  ]

  pub get-collect :
      (j : K) (entries : List (K × V))
      → IsAscending entries
      → get j (collect [] entries) ≡ get j entries
  unfolding get
  get-collect j entries sorted = get-collect_onto j [] entries sorted ∙ ground arith
