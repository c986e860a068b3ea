-- ===== src/Tests/Votes.antt =====
-- The theorem on one leader in a term, at three nodes of which one stands and is elected.
use raft_rust.Base.{
  subst, ◌++◌, ℕ, ◌≡◌, refl, ok, err, panic, false, true, none, arith, [], ◌∷◌, Outcome, u64_add,
  u64_limit,
}
use mathlib.Core.List.{Memᴰ}
use raft_rust.Membership.{MembershipEntry, simple}
use raft_rust.Message.{Envelope, Message}
use raft_rust.Log.Reach.{fresh, fresh-IsSound}
use raft_rust.Log.Crash.{fresh-IsDurable}
use raft_rust.Node.Types.{RawNode, Follower, Leader, Node, follower, leader}
use raft_rust.Node.Follower.{new_follower}
use raft_rust.Node.Drive.{step, tick, start}
use raft_rust.Log.Ops as Ops
use raft_rust.Log.Table as Table
use raft_rust.Membership as Membership
use raft_rust.Node.Apply as Apply
use raft_rust.Node.Campaign as Campaign
use raft_rust.Node.Commit as Commit
use raft_rust.Node.Common as Common
use raft_rust.Node.Drive as Drive
use raft_rust.Node.Elect as Elect
use raft_rust.Node.Follower as Follower
use raft_rust.Node.LeaderStep as LeaderStep
use raft_rust.Node.Progress as Progress
use raft_rust.Node.Receive as Receive
use raft_rust.Node.Replicate as Replicate
use raft_rust.NodeSet as NodeSet
use raft_rust.Election.Ballots.{grants}
use raft_rust.Election.Backing.{active_of}
use raft_rust.Election.World.{
  World, Move, tx_of, put, put-all, Agrees, History, begins, moves, ticks, receives, transmits,
}
use raft_rust.Election.Safety.{IsQuiet, one_leader}
use raft_rust.Tests.Nodes.{counter, options}
use raft_rust.Tests.Elections.{services, leader_of}
use raft_rust.Tests.Leaders.{lead}

abbrev three : MembershipEntry
three = simple (record { voters = 1 ∷ 2 ∷ 3 ∷ [] })

-- A follower that stands at its next tick.
abbrev pub idle : ℕ → RawNode ℕ Follower
idle id = record {
  id = id;
  membership = record { active = three; change_pending = false };
  log = fresh;
  state = 0;
  tx = [];
  opts = record options { pre_vote = false };
  draws = [];
  role = new_follower none 1;
}

abbrev quiet_world : World ℕ
quiet_world = record { node = λ i. follower (idle i); wire = [] }

abbrev after : Node ℕ → Outcome (Node ℕ) → Node ℕ
after d (ok n) = n
after d (err e) = d
after d panic = d

abbrev pub stood : Node ℕ
unfolding tick
stood = after (follower (idle 1)) (tick counter services (follower (idle 1)))

abbrev asks : Envelope
asks = record { from = 1; term = 1; to = 2; message = Message.campaign 0 0 }

abbrev voted : Node ℕ
unfolding step
voted = after (follower (idle 2)) (step counter services (follower (idle 2)) asks)

abbrev answer : Envelope
answer = record { from = 2; term = 1; to = 1; message = Message.campaign_response true }

abbrev winner : RawNode ℕ Leader
unfolding tick step
winner = leader_of (lead fresh) (step counter services stood answer)

abbrev one_stands : World ℕ
one_stands = put quiet_world 1 stood

abbrev two_votes : World ℕ
two_votes = put one_stands 2 voted

abbrev on_the_wire : World ℕ
on_the_wire = record two_votes { wire = answer ∷ [] }

abbrev one_leads : World ℕ
one_leads = put on_the_wire 1 (leader winner)

quiet_world-IsQuiet : IsQuiet quiet_world
quiet_world-IsQuiet = record {
  follows = idle;
  roles = λ i. refl;
  ids = λ i. refl;
  unsent = λ i. refl;
  sound = λ i. fresh-IsSound;
  durable = λ i. fresh-IsDurable;
  no_wire = refl;
}

elected_run :
    (tick counter services (follower (idle 1)) ≡ ok stood)
    × (step counter services (follower (idle 2)) asks ≡ ok voted)
    × (step counter services stood answer ≡ ok (leader winner))
    × (active_of stood ≡ three)
    × (active_of voted ≡ three)
    × (tx_of voted ≡ answer ∷ [])
    × (active_of (leader winner) ≡ three)
unfolding Apply.maybe_commit_and_apply Campaign.quorum_reached Commit.advance_commit
    Common.broadcast Common.cluster_size Common.is_known_sender Common.peers Common.send Drive.step
    Drive.tick Elect.candidate_step Elect.is_election LeaderStep.leader_step Membership.all_voters
    Membership.has_quorum Membership.is_majority Membership.peers_of NodeSet.count_common
    NodeSet.remove NodeSet.union Ops.append_entry Ops.scan_apply Ops.set_term_vote
    Progress.new_leader Replicate.heartbeat Replicate.propose Table.flush_if Table.lookup
    Table.range Table.write_all u64_add u64_limit Receive.follower_tick Common.tick_up
    Follower.abort_forwarded Common.random_election_timeout Campaign.campaign Receive.follower_step
    Follower.on_campaign Campaign.is_recent Follower.into_follower Receive.dispatch
    Receive.note_leader
elected_run = (refl, refl, refl, refl, refl, refl, refl)

elected-History : History counter services three quiet_world one_leads
elected-History =
    moves
      (moves
        (moves (moves begins quiet_agrees (ticks 1 elected_run.0)) stood_agrees
          (receives 2 asks (λ g. absurd (unfold grants in ground arith)) tt elected_run.1))
        voted_agrees sent)
      voted_agrees (receives 1 answer (λ g. Memᴰ.head refl) tt elected_run.2)
  where
    quiet_agrees : Agrees counter services three quiet_world
    quiet_agrees i = refl

    stood_agrees : Agrees counter services three one_stands
    stood_agrees =
        put-all quiet_world 1 stood (λ j n. active_of n ≡ three) elected_run.3 quiet_agrees

    voted_agrees : Agrees counter services three two_votes
    voted_agrees =
        put-all one_stands 2 voted (λ j n. active_of n ≡ three) elected_run.4 stood_agrees

    sent : Move counter services three two_votes on_the_wire
    sent =
        subst (λ l. Move counter services three two_votes (record two_votes { wire = l ++ [] }))
          elected_run.5 (transmits 2)

-- The leader then sends to its peers.
led-History :
    History counter services three one_leads
      (record one_leads { wire = winner.tx ++ one_leads.wire })
led-History = moves begins agrees (transmits 1)
  where
    agrees : Agrees counter services three one_leads
    agrees =
        put-all on_the_wire 1 (leader winner) (λ j n. active_of n ≡ three) elected_run.6
          (put-all one_stands 2 voted (λ j n. active_of n ≡ three) elected_run.4
            (put-all quiet_world 1 stood (λ j n. active_of n ≡ three) elected_run.3 (λ i. refl)))

one_leader_example : ◌≡◌ {A = ℕ} 1 1
one_leader_example =
    one_leader counter services three quiet_world-IsQuiet elected-History led-History refl refl refl
