-- ===== src/Log/Entry.antt =====
-- The entries of the log (raft/log.rs under src/).
use raft_rust.Base.{ℕ, ◌≡◌, Bool, true, ◌&&◌, Option, List, ℕ_discrete, arith, is_yes}
use raft_rust.Membership.{MembershipEntry}

-- `Vec<u8>`
abbrev pub Bytes : Type 0
Bytes = List ℕ

pub record Entry : Type 0 where
  pub index : ℕ
  pub term : ℕ
  pub command : Option Bytes
  pub membership : Option MembershipEntry

pub command-discrete : Discrete (Option Bytes)
unfolding ℕ_discrete
command-discrete = hlevel ℕ_discrete

pub membership-discrete : Discrete (Option MembershipEntry)
unfolding ℕ_discrete
membership-discrete = hlevel ℕ_discrete

-- `a.command == b.command && a.membership == b.membership`
unfoldable pub same_payload : Entry → Entry → Bool
unfolding command-discrete membership-discrete
same_payload a b =
    is_yes (command-discrete a.command b.command)
    && is_yes (membership-discrete a.membership b.membership)

-- Entries that agree in index, term and payload are one.
pub eq_of_same_payload :
    (a b : Entry) → a.index ≡ b.index → a.term ≡ b.term → same_payload a b ≡ true → a ≡ b
unfolding same_payload
eq_of_same_payload a b i t h = ground arith
