-- ===== src/Wire.antt =====
-- The frames of the network: src/net/codec.rs. A stream is the bytes that are still to be read.
use raft_rust.Base.{
  ℕ, ◌*◌, ◌^◌, ◌≤◌, ◌<◌, ◌≡◌, none, some, [], ◌∷◌, ◌++◌, length, take, drop, Outcome, ok, err,
  invalid_data, io, u32_le, from_be, from_be-u32_be, ltb, if◌then◌else◌, arith, take-append,
  drop-append, length-append,
}
use raft_rust.Codec.{Codec, RoundTrips}
use raft_rust.Log.Entry.{Bytes}
use raft_rust.Message.{Envelope, Request, Reply}

pub data WireMsg : Type 0 where
  raft : Envelope → WireMsg
  client : ℕ → Request → WireMsg
  client_reply : ℕ → Reply → WireMsg

-- 64 MiB
abbrev pub frame_limit : ℕ
frame_limit = 64 * 1024 * 1024

module _ (messages : Codec WireMsg) where
  unfoldable pub encode : WireMsg → Bytes
  unfolding u32_le
  encode msg = u32_le (length (messages.encode msg)) ++ messages.encode msg

  unfoldable pub decode : Bytes → Outcome WireMsg
  decode bytes = elim (messages.decode bytes) [ none ↦ err invalid_data | some msg ↦ ok msg ]

  -- What `write_msg` makes of what is on the stream.
  unfoldable pub write_msg : Bytes → WireMsg → Bytes
  unfolding encode
  write_msg stream msg = stream ++ encode msg

  -- The body of a frame whose length was read.
  unfoldable pub read_body : ℕ → Bytes → Bytes × Outcome WireMsg
  unfolding decode
  read_body len stream =
      if ltb frame_limit len
      then (stream, err invalid_data)
      else if ltb (length stream) len
      then ([], err io)
      else (drop len stream, decode (take len stream))

  -- The rest of the stream, and the message.
  unfoldable pub read_msg : Bytes → Bytes × Outcome WireMsg
  unfolding from_be read_body
  read_msg (b0 ∷ b1 ∷ b2 ∷ b3 ∷ stream) = read_body (from_be b3 b2 b1 b0) stream
  read_msg _ = ([], err io)

  -- A frame that was written in front of a stream, with a body of at most 64 MiB that decodes to the message, is read back as
  -- that message, and leaves the stream.
  pub read_msg-encode :
      (msg : WireMsg) (stream : Bytes)
      → RoundTrips messages msg
      → length (messages.encode msg) ≤ frame_limit
      → read_msg (encode msg ++ stream) ≡ (stream, ok msg)
  unfolding read_msg encode read_body
  read_msg-encode msg stream back fits =
      let body = messages.encode msg in
      rw
        (
          from_be-u32_be (length body) (omega arith),
          take-append body stream,
          drop-append body stream,
        )
        (ground (arith, length-append body stream, back))

  -- A frame whose body is longer than 64 MiB and shorter than 4 GiB can be written, and no reader takes it.
  pub read_msg-too_large :
      (msg : WireMsg) (stream : Bytes)
      → frame_limit < length (messages.encode msg)
      → length (messages.encode msg) < 2 ^ 32
      → read_msg (encode msg ++ stream) ≡ (messages.encode msg ++ stream, err invalid_data)
  unfolding read_msg encode read_body
  read_msg-too_large msg stream large fits =
      rw (from_be-u32_be (length (messages.encode msg)) fits) (ground arith)
