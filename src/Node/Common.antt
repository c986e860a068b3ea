-- ===== src/Node/Common.antt =====
-- What the three roles share: the generic `impl RawNode<R>` of raft/node.rs under src/.
use raft_rust.Base.{
  ℕ, ◌+◌, ◌-◌, ◌%◌, max, Bool, false, ◌||◌, Option, none, some, List, [], ◌∷◌, ◌++◌, length,
  Outcome, ok, panic, ◌>>=◌, ltb, leb, ◌==◌, if◌then◌else◌,
}
use raft_rust.NodeSet
use raft_rust.NodeSet.{NodeSet}
use raft_rust.Membership.{MembershipEntry, simple, joint, all_voters, peers_of, apply_entry}
use raft_rust.Message.{Envelope, Message}
use raft_rust.Log.Entry.{Entry}
use raft_rust.Log.Ops.{latest_membership}
use raft_rust.Node.Types.{RawNode, Options}

-- `+= 1` on `u8` in a build that checks for overflow.
unfoldable pub tick_up : ℕ → Outcome ℕ
tick_up n = if ltb n 255 then ok (n + 1) else panic

-- `rand::rng().random_range(range)` for the number that is drawn; an empty range panics.
unfoldable pub draw_from : Options → ℕ → Outcome ℕ
draw_from o d =
    if ltb o.election_timeout_start o.election_timeout_end
    then ok (o.election_timeout_start + d % (o.election_timeout_end - o.election_timeout_start))
    else panic

-- A simple configuration that is committed ends the change.
settled : ℕ → ℕ → MembershipEntry → Bool → Bool
settled index commit (simple m) pending = if leb index commit then false else pending
settled index commit (joint old new) pending = pending

module _ {S R : Type 0} where
  abbrev pub into_role : {T : Type 0} → RawNode S R → T → RawNode S T
  into_role n r = record {
    id = n.id;
    membership = n.membership;
    log = n.log;
    state = n.state;
    tx = n.tx;
    opts = n.opts;
    draws = n.draws;
    role = r;
  }

  abbrev pub node_term : RawNode S R → ℕ
  node_term n = n.log.term

  unfoldable pub peers : RawNode S R → NodeSet
  peers n = peers_of n.membership n.id

  unfoldable pub is_known_sender : RawNode S R → ℕ → Bool
  is_known_sender n from = from == n.id || NodeSet.contains (all_voters n.membership.active) from

  unfoldable pub cluster_size : RawNode S R → ℕ
  cluster_size n = length (all_voters n.membership.active)

  unfoldable pub random_election_timeout : RawNode S R → Outcome (ℕ × RawNode S R)
  unfolding draw_from
  random_election_timeout n = elim n.draws [
    | [] ↦ do t ← draw_from n.opts 0; ok (t, n)
    | d ∷ draws ↦ do t ← draw_from n.opts d; ok (t, record n { draws = draws })
  ]

  unfoldable pub election_timeout_max : RawNode S R → ℕ
  election_timeout_max n = max (n.opts.election_timeout_end - 1) 1

  unfoldable pub send_via : RawNode S R → Envelope → RawNode S R
  send_via n e = record n { tx = n.tx ++ e ∷ [] }

  unfoldable pub send : RawNode S R → ℕ → Message → RawNode S R
  unfolding send_via
  send n to message =
      send_via n (record { from = n.id; term = n.log.term; to = to; message = message })

  unfoldable pub send_all : NodeSet → ℕ → Message → RawNode S R → RawNode S R
  unfolding send_via
  send_all [] term message n = n
  send_all (id ∷ ids) term message n =
      send_all ids term message
        (send_via n (record { from = n.id; term = term; to = id; message = message }))

  unfoldable pub broadcast : RawNode S R → Message → RawNode S R
  unfolding send_all
  broadcast n message = send_all (peers n) n.log.term message n

  unfoldable pub adopt : RawNode S R → Option MembershipEntry → RawNode S R
  adopt n none = n
  adopt n (some m) = record n { membership = apply_entry n.membership m }

  -- `maybe_apply_membership_from_entries`
  unfoldable pub adopt_memberships : List Entry → RawNode S R → RawNode S R
  unfolding adopt
  adopt_memberships [] n = n
  adopt_memberships (e ∷ entries) n = adopt_memberships entries (adopt n e.membership)

  unfoldable pub restore_membership_from_log : RawNode S R → RawNode S R
  unfolding settled
  restore_membership_from_log n = elim (latest_membership n.log) [
    | none ↦ n
    | some (index, m) ↦
        let s = apply_entry n.membership m in
        record n {
          membership = record s {
            change_pending = settled index n.log.commit_index m s.change_pending;
          };
        }
  ]
