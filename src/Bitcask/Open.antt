-- ===== src/Bitcask/Open.antt =====
-- Opening any file: the loop of `Log::build_keydir` of src/storage/bitcask.rs.
use raft_rust.Base.{
  ℕ, zero, suc, ◌+◌, ◌≤◌, ◌<◌, ◌≡◌, refl, Bool, some, [], ◌∷◌, length, take, drop, length-drop,
  arith, Option-cases, inl, inr,
}
use raft_rust.Log.Entry.{Bytes}
use raft_rust.Bitcask.{
  KeyDir, BitCask, Parsed, parse_body, parse_entry, note_entry, scan_entries, build_keydir,
}

parse_body-size :
    (offset key_len : ℕ) (tombstone : Bool) (value_len : ℕ) (body : Bytes) {p : Parsed}
    → parse_body offset key_len tombstone value_len body ≡ some p
    → 8 ≤ p.size
unfolding parse_body
parse_body-size offset key_len tombstone value_len body found = ground arith

parse_entry-size :
    (offset : ℕ) (rest : Bytes) {p : Parsed} → parse_entry offset rest ≡ some p → 8 ≤ p.size
unfolding parse_entry
parse_entry-size offset (k0 ∷ k1 ∷ k2 ∷ k3 ∷ v0 ∷ v1 ∷ v2 ∷ v3 ∷ body) found =
    parse_body-size offset _ _ _ body found
parse_entry-size offset [] found = absurd (ground arith)
parse_entry-size offset (a ∷ []) found = absurd (ground arith)
parse_entry-size offset (a ∷ b ∷ []) found = absurd (ground arith)
parse_entry-size offset (a ∷ b ∷ c ∷ []) found = absurd (ground arith)
parse_entry-size offset (a ∷ b ∷ c ∷ d ∷ []) found = absurd (ground arith)
parse_entry-size offset (a ∷ b ∷ c ∷ d ∷ e ∷ []) found = absurd (ground arith)
parse_entry-size offset (a ∷ b ∷ c ∷ d ∷ e ∷ f ∷ []) found = absurd (ground arith)
parse_entry-size offset (a ∷ b ∷ c ∷ d ∷ e ∷ f ∷ g ∷ []) found = absurd (ground arith)

scan_entries-ends :
    (fuel : ℕ) (rest : Bytes) (offset : ℕ) (keydir : KeyDir)
    → length rest < fuel
    → (r : ℕ × KeyDir) × (scan_entries fuel rest offset keydir ≡ some r)
unfolding scan_entries
scan_entries-ends zero rest offset keydir enough = absurd (omega arith)
scan_entries-ends (suc fuel) [] offset keydir enough = ((offset, keydir), refl)
scan_entries-ends (suc fuel) (b ∷ rest) offset keydir enough =
    elim (Option-cases (parse_entry offset (b ∷ rest))) [
      | inl torn ↦ ((offset, keydir), rw (scan_entries, torn) refl)
      | inr (p, found) ↦
          let size = parse_entry-size offset (b ∷ rest) found in
          let (r, ended) =
            scan_entries-ends fuel (drop p.size (b ∷ rest)) (offset + p.size)
              (note_entry keydir p.key p.location) (omega (arith, length-drop p.size (b ∷ rest))) in
          (r, rw (scan_entries, found) ended)
    ]

-- Whatever bytes a file has, opening it gives an engine: the scan never runs out of its fuel.
pub build_keydir-ends : (file : Bytes) → (b : BitCask) × (build_keydir file ≡ some b)
unfolding build_keydir
build_keydir-ends file =
    let (r, ended) = scan_entries-ends (suc (length file)) file 0 [] (omega arith) in
    (record { file = take r.0 file; keydir = r.1 }, rw (build_keydir, ended) refl)
