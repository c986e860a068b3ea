-- ===== src/Codec.antt =====
-- The serializer that the program calls (`bincode::serde` with its standard configuration, in
-- raft/kv.rs, raft/session.rs and net/codec.rs under src/), as a parameter.
use raft_rust.Base.{◌≡◌, Option, some}
use raft_rust.Log.Entry.{Bytes}

pub record Codec (A : Type 0) : Type 0 where
  pub encode : A → Bytes
  pub decode : Bytes → Option A

-- What was encoded is decoded.
abbrev pub RoundTrips : {A : Type 0} → Codec A → A → Type 0
RoundTrips c x = c.decode (c.encode x) ≡ some x
