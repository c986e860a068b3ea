-- ===== src/Kv/Laws.antt =====
-- What the key-value machine holds after the entries it has applied (src/raft/kv.rs).
use raft_rust.Base.{
  ℕ, ◌≡◌, refl, ap, ◌∙◌, max, Option, none, some, List, [], ◌∷◌, ok, if◌then◌else◌, arith,
  Bool-cases, inl, inr, Option-cases, subst, sym,
}
use raft_rust.KeyMap.{equal_refl, get, insert, get-insert_same, get-insert_other}
use raft_rust.KeyMap.Order.{bytes_keys, bytes_equal, bytes_equal_iff}
use raft_rust.Codec.{RoundTrips}
use raft_rust.Log.Entry.{Entry, Bytes}
use raft_rust.Kv.{
  Command, Response, Kv, KvCodecs, apply, apply_command, read, answer, snapshot, restore,
}

module _ (codecs : KvCodecs) where
  open codecs use {commands, responses, snapshots}

  -- The machine after a run of entries, whatever each of them answers.
  unfoldable pub apply_all : Kv → List Entry → Kv
  unfolding apply
  apply_all kv [] = kv
  apply_all kv (entry ∷ entries) = apply_all (apply codecs kv entry).0 entries

  -- What a command makes of the value of a key.
  unfoldable pub value_after : Bytes → Command → Option Bytes → Option Bytes
  value_after key (Command.put k v) old = if bytes_equal key k then some v else old
  value_after key (Command.get k) old = old
  value_after key Command.scan old = old

  -- The value of a key by the last entry that puts it, or `old` where none does.
  unfoldable pub last_put : Bytes → List Entry → Option Bytes → Option Bytes
  unfolding value_after
  last_put key [] old = old
  last_put key (entry ∷ entries) old = elim entry.command [
    | none ↦ last_put key entries old
    | some bytes ↦ elim (commands.decode bytes) [
      | none ↦ last_put key entries old
      | some command ↦ last_put key entries (value_after key command old)
    ]
  ]

  get-apply_command :
      (key : Bytes) (kv : Kv) (index : ℕ) (command : Command)
      → get key (apply_command codecs kv index command).0.data_of
        ≡ value_after key command (get key kv.data_of)
  unfolding apply_command value_after
  get-apply_command key kv index (Command.get k) = refl
  get-apply_command key kv index Command.scan = refl
  get-apply_command key kv index (Command.put k v) = elim (Bool-cases (bytes_equal key k)) [
    | inr other ↦ rw other (get-insert_other key k v kv.data_of other)
    | inl same ↦
        let met = (bytes_equal_iff key k).0 same in
        rw same (
          subst (λ x. get x (insert k v kv.data_of) ≡ some v) (sym met)
            (get-insert_same k v kv.data_of))
  ]

  -- After any entries the machine holds under each key what the last entry that put it wrote, or
  -- what it held before where none did; entries that no command is decoded from change nothing.
  pub get-apply_all :
      (key : Bytes) (kv : Kv) (entries : List Entry)
      → get key (apply_all kv entries).data_of ≡ last_put key entries (get key kv.data_of)
  unfolding apply_all last_put apply
  get-apply_all key kv [] = refl
  get-apply_all key kv (entry ∷ entries) =
      get-apply_all key (apply codecs kv entry).0 entries ∙ elim (Option-cases entry.command) [
        | inl empty ↦ rw empty refl
        | inr (bytes, given) ↦ elim (Option-cases (commands.decode bytes)) [
          | inl broken ↦ rw (given, apply, broken) refl
          | inr (command, decoded) ↦
              rw (given, apply, decoded)
                (ap (last_put key entries) (get-apply_command key kv entry.index command))
        ]
      ]

  -- A read of a key, once a put of a value under it and then any entries that do not put it are
  -- applied, answers that value.
  pub read-apply_put :
      (key value : Bytes) (kv : Kv) (entry : Entry) (entries : List Entry)
      → entry.command ≡ some (commands.encode (Command.put key value))
      → RoundTrips commands (Command.put key value)
      → RoundTrips commands (Command.get key)
      → last_put key entries (some value) ≡ some value
      → read codecs (apply_all kv (entry ∷ entries)) (commands.encode (Command.get key))
        ≡ ok (responses.encode (Response.get (some value)))
  unfolding read answer last_put value_after
  read-apply_put key value kv entry entries given put_back get_back kept =
      let first : last_put key (entry ∷ entries) (get key kv.data_of)
          ≡ last_put key entries (some value) =
        rw (given, put_back, equal_refl key) refl in
      let held : get key (apply_all kv (entry ∷ entries)).data_of ≡ some value =
        get-apply_all key kv (entry ∷ entries) ∙ first ∙ kept in
      rw (read, get_back) (ap (λ x. ok (responses.encode (Response.get x))) held)

  -- A snapshot gives any machine the data of the one that took it, and the later of the two indices.
  pub restore-snapshot :
      (kv other : Kv) (index : ℕ) {bytes : Bytes}
      → RoundTrips snapshots (kv.applied_index, kv.data_of)
      → snapshot codecs kv ≡ ok bytes
      → restore codecs other bytes index
        ≡ (record { applied_index = max index kv.applied_index; data_of = kv.data_of }, ok tt)
  unfolding snapshot restore
  restore-snapshot kv other index {bytes} back taken =
      let same : bytes ≡ snapshots.encode (kv.applied_index, kv.data_of) = ground arith in
      rw (same, restore, back) refl
