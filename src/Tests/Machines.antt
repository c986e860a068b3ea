-- ===== src/Tests/Machines.antt =====
-- The theorems on the state machines, at a key-value machine with sessions and a plain serializer.
use raft_rust.Base.{
  ℕ, zero, suc, ◌≡◌, refl, max, Option, none, some, List, [], ◌∷◌, ◌++◌, length, take, drop, ok,
  arith,
}
use raft_rust.KeyMap
use raft_rust.KeyMap.Order.{bytes_keys, bytes_equal, number_keys}
use raft_rust.Log.Entry.{Entry, Bytes}
use raft_rust.Kv as Kv
use raft_rust.Kv.{Command, Response, KvCodecs, kv_machine}
use raft_rust.Kv.Laws.{apply_all, last_put, get-apply_all, read-apply_put, restore-snapshot}
use raft_rust.Session as Session
use raft_rust.Session.{SessionCommand, SessionCodecs, SessionState}
use raft_rust.Session.Once as Once
use raft_rust.Session.Once.{CarriesSession, decode_session-encode_session, applied_once}
use raft_rust.Session.Snapshots.{restore-snapshot_lem}

abbrev encode_command : Command → Bytes
encode_command (Command.get key) = 0 ∷ key
encode_command (Command.put key value) = 1 ∷ length key ∷ key ++ value
encode_command Command.scan = 2 ∷ []

abbrev decode_command : Bytes → Option Command
decode_command (zero ∷ key) = some (Command.get key)
decode_command (suc zero ∷ n ∷ rest) = some (Command.put (take n rest) (drop n rest))
decode_command (suc (suc zero) ∷ []) = some Command.scan
decode_command _ = none

abbrev encode_response : Response → Bytes
encode_response (Response.get none) = 0 ∷ []
encode_response (Response.get (some value)) = 1 ∷ value
encode_response (Response.put index) = 2 ∷ index ∷ []
encode_response (Response.scan entries) = 3 ∷ length entries ∷ []

abbrev encode_entries : List (Bytes × Bytes) → Bytes
encode_entries [] = []
encode_entries ((key, value) ∷ entries) =
    length key ∷ length value ∷ (key ++ value) ++ encode_entries entries

-- The fuel is the length of what is decoded.
abbrev decode_entries : Bytes → Bytes → List (Bytes × Bytes)
decode_entries (f ∷ fuel) (k ∷ v ∷ rest) =
    (take k rest, take v (drop k rest)) ∷ decode_entries fuel (drop v (drop k rest))
decode_entries _ _ = []

abbrev decode_snapshot : Bytes → Option (ℕ × List (Bytes × Bytes))
decode_snapshot [] = none
decode_snapshot (index ∷ rest) = some (index, decode_entries rest rest)

abbrev kv_codecs : KvCodecs
kv_codecs = record {
  commands = record { encode = encode_command; decode = decode_command };
  responses = record { encode = encode_response; decode = λ bytes. none };
  snapshots = record { encode = λ s. s.0 ∷ encode_entries s.1; decode = decode_snapshot };
}

abbrev decode_session_command : Bytes → Option SessionCommand
decode_session_command (client ∷ seq ∷ payload) =
    some (record { client_id = client; seq = seq; payload = payload })
decode_session_command _ = none

abbrev encode_replies : List (ℕ × ℕ × Bytes) → Bytes
encode_replies [] = []
encode_replies ((id, seq, reply) ∷ replies) =
    id ∷ seq ∷ length reply ∷ reply ++ encode_replies replies

abbrev decode_replies : Bytes → Bytes → List (ℕ × ℕ × Bytes)
decode_replies (f ∷ fuel) (id ∷ seq ∷ n ∷ rest) =
    (id, seq, take n rest) ∷ decode_replies fuel (drop n rest)
decode_replies _ _ = []

abbrev decode_parts : Bytes → Option (Bytes × List (ℕ × ℕ × Bytes))
decode_parts [] = none
decode_parts (n ∷ rest) = some (take n rest, decode_replies rest (drop n rest))

abbrev session_codecs : SessionCodecs
session_codecs = record {
  commands = record {
    encode = λ c. c.client_id ∷ c.seq ∷ c.payload;
    decode = decode_session_command;
  };
  snapshots = record {
    encode = λ s. length s.0 ∷ s.0 ++ encode_replies s.1;
    decode = decode_parts;
  };
}

abbrev command_at : ℕ → Bytes → Entry
command_at index command = record {
  index = index;
  term = 1;
  command = some command;
  membership = none;
}

abbrev put_one : Bytes → Bytes
put_one value = encode_command (Command.put (9 ∷ []) value)

abbrev puts : List Entry
puts = command_at 1 (put_one (4 ∷ [])) ∷ command_at 2 (put_one (5 ∷ [])) ∷ []

get-apply_all_example :
    KeyMap.get (9 ∷ []) (apply_all kv_codecs Kv.new puts).data_of
    ≡ last_put kv_codecs (9 ∷ []) puts (KeyMap.get (9 ∷ []) Kv.new.data_of)
get-apply_all_example = get-apply_all kv_codecs (9 ∷ []) Kv.new puts

read-apply_put_example :
    Kv.read kv_codecs
      (apply_all kv_codecs Kv.new (command_at 1 (put_one (4 ∷ [])) ∷ []))
      (encode_command (Command.get (9 ∷ [])))
    ≡ ok (encode_response (Response.get (some (4 ∷ []))))
unfolding last_put
read-apply_put_example =
    read-apply_put kv_codecs (9 ∷ []) (4 ∷ []) Kv.new (command_at 1 (put_one (4 ∷ []))) [] refl refl
      refl refl

abbrev kept : Kv.Kv
kept = record { applied_index = 3; data_of = (9 ∷ [], 4 ∷ 5 ∷ []) ∷ [] }

restore-snapshot_example :
    Kv.restore kv_codecs Kv.new (3 ∷ encode_entries kept.data_of) 2
    ≡ (record { applied_index = max 2 3; data_of = kept.data_of }, ok tt)
unfolding Kv.snapshot
restore-snapshot_example = restore-snapshot kv_codecs kept Kv.new 2 refl refl

abbrev kv_sessions : Kv.Kv → SessionState session_codecs (kv_machine kv_codecs)
kv_sessions = Session.new session_codecs (kv_machine kv_codecs)

abbrev session_put : ℕ → ℕ → Bytes → Entry
session_put index seq value =
    command_at index (Session.encode_session session_codecs 7 seq (put_one value))

abbrev empty_state : SessionState session_codecs (kv_machine kv_codecs)
unfolding Session.new Kv.new
empty_state = kv_sessions Kv.new

abbrev after_first : SessionState session_codecs (kv_machine kv_codecs)
unfolding Session.apply Session.new Kv.new
after_first =
    (Session.apply session_codecs (kv_machine kv_codecs) empty_state (session_put 1 5 (4 ∷ []))).0

abbrev later : SessionState session_codecs (kv_machine kv_codecs)
unfolding Once.apply_all Session.apply Session.new Kv.new
later = Once.apply_all session_codecs (kv_machine kv_codecs) after_first (puts)

carried :
    (index : ℕ) (value : Bytes)
    → CarriesSession session_codecs
        (kv_machine kv_codecs)
        (session_put index 5 value)
        (record { client_id = 7; seq = 5; payload = put_one value })
carried index value =
    (_, refl, decode_session-encode_session session_codecs 7 5 (put_one value) refl)

applied_once_example :
    (Session.apply session_codecs (kv_machine kv_codecs) later (session_put 4 5 (6 ∷ []))).0
    ≡ (Session.apply_inner session_codecs
        (kv_machine kv_codecs)
        later
        (Session.noop session_codecs (kv_machine kv_codecs) (session_put 4 5 (6 ∷ [])))).0
unfolding Session.apply Session.new Kv.new Kv.apply Session.encode_session Session.decode_session
    bytes_equal KeyMap.get later Once.apply_all
applied_once_example =
    applied_once session_codecs (kv_machine kv_codecs) empty_state (session_put 1 5 (4 ∷ []))
      (session_put 4 5 (6 ∷ [])) puts
      (record { client_id = 7; seq = 5; payload = put_one (4 ∷ []) })
      (record { client_id = 7; seq = 5; payload = put_one (6 ∷ []) }) (carried 1 (4 ∷ []))
      (carried 4 (6 ∷ [])) refl (omega arith) refl

abbrev holding : SessionState session_codecs (kv_machine kv_codecs)
holding = record { inner_state = kept; sessions = (7, (5, 2 ∷ 1 ∷ [])) ∷ (8, (1, [])) ∷ [] }

abbrev held_bytes : Bytes
held_bytes = 3 ∷ encode_entries kept.data_of

abbrev taken_bytes : Bytes
taken_bytes =
    length held_bytes ∷ held_bytes ++ encode_replies ((7, 5, 2 ∷ 1 ∷ []) ∷ (8, 1, []) ∷ [])

restore-snapshot_lem_example :
    ((Session.restore session_codecs (kv_machine kv_codecs) empty_state taken_bytes 2).1 ≡ ok tt)
    × ((Session.restore session_codecs
          (kv_machine kv_codecs)
          empty_state
          taken_bytes
          2).0.inner_state
        ≡ (Kv.restore kv_codecs Kv.new held_bytes 2).0)
    × (KeyMap.get 7
          (Session.restore session_codecs
            (kv_machine kv_codecs)
            empty_state
            taken_bytes
            2).0.sessions
        ≡ KeyMap.get 7 holding.sessions)
unfolding Session.new Kv.new Session.snapshot Kv.snapshot Kv.restore Session.flatten
restore-snapshot_lem_example =
    restore-snapshot_lem session_codecs (kv_machine kv_codecs) holding empty_state 2 7
      ((refl, tt), (tt, tt)) refl refl refl refl
