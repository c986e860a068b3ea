-- ===== src/Node/Types.antt =====
-- The node and its three roles (raft/node.rs under src/).
use raft_rust.Base.{ℕ, Bool, Option, List}
use raft_rust.NodeSet.{NodeSet}
use raft_rust.Membership.{MembershipState}
use raft_rust.Message.{Envelope}
use raft_rust.Log.Entry.{Bytes}
use raft_rust.Log.Ops.{Log}

pub record Options : Type 0 where
  pub heartbeat_interval : ℕ
  pub election_timeout_start : ℕ
  pub election_timeout_end : ℕ
  pub max_append_entries : ℕ
  pub pre_vote : Bool
  pub check_quorum : Bool
  pub snapshot_threshold : ℕ

-- `tx` is the list of the envelopes sent, the last one at its end; `draws` are the random numbers
-- that the node will be given.
pub record RawNode (S R : Type 0) : Type 0 where
  pub id : ℕ
  pub membership : MembershipState
  pub log : Log
  pub state : S
  pub tx : List Envelope
  pub opts : Options
  pub draws : List ℕ
  pub role : R

pub record Follower : Type 0 where
  pub leader : Option ℕ
  pub leader_seen : ℕ
  pub election_timeout : ℕ
  pub forwarded : NodeSet

pub data ElectionPhase : Type 0 where
  pre_vote election : ElectionPhase

pub record Candidate : Type 0 where
  pub votes : NodeSet
  pub election_duration : ℕ
  pub election_timeout : ℕ
  pub phase : ElectionPhase

pub record Progress : Type 0 where
  pub match_index : ℕ
  pub next_index : ℕ
  pub read_seq : ℕ

pub record Write : Type 0 where
  pub from : ℕ
  pub id : ℕ

pub record Read : Type 0 where
  pub seq : ℕ
  pub from : ℕ
  pub id : ℕ
  pub command : Bytes

-- The maps are association lists: a key stands once.
pub record Leader : Type 0 where
  pub progress : List (ℕ × Progress)
  pub writes : List (ℕ × Write)
  pub membership_writes : List (ℕ × Write)
  pub reads : List Read
  pub read_seq : ℕ
  pub since_heartbeat : ℕ
  pub peer_seen : List (ℕ × ℕ)

pub data Node (S : Type 0) : Type 0 where
  candidate : RawNode S Candidate → Node S
  follower : RawNode S Follower → Node S
  leader : RawNode S Leader → Node S
