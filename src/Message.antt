-- ===== src/Message.antt =====
-- The messages between nodes and the requests of clients, src/raft/message.rs.
use raft_rust.Base.{ℕ, Bool, List, Error}
use raft_rust.NodeSet.{NodeSet}
use raft_rust.Membership.{MembershipEntry}
use raft_rust.Log.Entry.{Entry, Bytes}

-- A request id is a UUID; the program compares and sorts them, as a number here.
pub data Request : Type 0 where
  read : Bytes → Request
  write : Bytes → Request
  write_session : ℕ → ℕ → Bytes → Request
  status : Request
  change_membership : NodeSet → Request

-- `storage::Status` of src/storage/engine.rs, without the engine's name.
pub record StorageStatus : Type 0 where
  pub keys : ℕ
  pub size : ℕ
  pub disk_size : ℕ
  pub live_disk_size : ℕ

pub record Status : Type 0 where
  pub leader : ℕ
  pub term : ℕ
  pub match_index : List (ℕ × ℕ)
  pub commit_index : ℕ
  pub applied_index : ℕ
  pub storage : StorageStatus
  pub voters : NodeSet

pub data Response : Type 0 where
  read : Bytes → Response
  write : Bytes → Response
  status : Status → Response
  change_membership : ℕ → Response

-- `Result<Response>`
pub data Reply : Type 0 where
  done : Response → Reply
  failed : Error → Reply

pub data Message : Type 0 where
  pre_campaign : ℕ → ℕ → Message
  pre_campaign_response : Bool → Message
  campaign : ℕ → ℕ → Message
  campaign_response : Bool → Message
  heartbeat : ℕ → ℕ → ℕ → Message
  heartbeat_response : ℕ → ℕ → Message
  append : ℕ → ℕ → List Entry → Message
  append_response : ℕ → ℕ → Message
  read : ℕ → Message
  read_response : ℕ → Message
  client_request : ℕ → Request → Message
  client_response : ℕ → Reply → Message
  install_snapshot : ℕ → ℕ → Bytes → MembershipEntry → Message
  install_snapshot_response : ℕ → Message

pub record Envelope : Type 0 where
  pub from : ℕ
  pub term : ℕ
  pub to : ℕ
  pub message : Message
