-- ===== src/Cycle.antt =====
-- kernel/core/src/cycle_orch/mod.rs: the peer state machine and the halt verb. Unchecked additions
-- wrap, as in the release profile. A refused transition leaves what its caller set before it.
pub mod Trail
pub mod Halts
use asolaria_os.Prelude.{
  ℕ, ◌+◌, ◌%◌, List, [], ◌∷◌, ◌++◌, Bytes, bytes, same, starts_with, length, drop, any, ltb, u64,
  u32_mod, Bool, true, false, ◌&&◌, ◌||◌, not, if◌then◌else◌, Option, none, some, Result, ok, err,
}

pub data PeerState : Type 0 where
  dark probing alive kicked responding drift halt : PeerState

-- The derived `PartialEq`.
unfoldable pub peer_eq : PeerState → PeerState → Bool
peer_eq dark dark = true
peer_eq probing probing = true
peer_eq alive alive = true
peer_eq kicked kicked = true
peer_eq responding responding = true
peer_eq drift drift = true
peer_eq halt halt = true
peer_eq _ _ = false

unfoldable pub legal_transitions : PeerState → List PeerState
legal_transitions dark = probing ∷ []
legal_transitions probing = alive ∷ dark ∷ []
legal_transitions alive = kicked ∷ dark ∷ probing ∷ []
legal_transitions kicked = responding ∷ drift ∷ halt ∷ dark ∷ []
legal_transitions responding = alive ∷ kicked ∷ drift ∷ halt ∷ []
legal_transitions drift = alive ∷ halt ∷ dark ∷ []
legal_transitions halt = dark ∷ []

pub record TransitionRecord : Type 0 where
  pub ts_ns : ℕ
  pub from_ : PeerState
  pub to : PeerState
  pub reason : Bytes

pub record PeerStateMachine : Type 0 where
  pub peer_id : Bytes
  pub state : PeerState
  pub history : List TransitionRecord
  pub last_transition_ns : ℕ
  pub kick_deadline_ns : Option ℕ
  pub strikes : ℕ

unfoldable pub machine_new : Bytes → PeerStateMachine
machine_new peer_id = record {
  peer_id = peer_id;
  state = dark;
  history = [];
  last_transition_ns = 0;
  kick_deadline_ns = none;
  strikes = 0;
}

-- `&'static str`, of which there is one.
pub data TransitionErr : Type 0 where
  illegal_transition : TransitionErr

-- `push_back`, and `pop_front` past 256 entries.
unfoldable pub remember : List TransitionRecord → TransitionRecord → List TransitionRecord
remember history entry =
    let pushed = history ++ entry ∷ [] in if ltb 256 (length pushed) then drop 1 pushed else pushed

unfoldable pub is_legal : PeerState → PeerState → Bool
unfolding peer_eq legal_transitions
is_legal from_ next = any (peer_eq next) (legal_transitions from_)

unfoldable pub transition :
    PeerState → Bytes → ℕ → PeerStateMachine → Result TransitionErr (Unit {0}) × PeerStateMachine
transition next reason now_ns m =
    if not (is_legal m.state next) then (err illegal_transition, m) else (
      ok tt,
      record m {
        state = next;
        last_transition_ns = now_ns;
        history =
            remember m.history
              (record { ts_ns = now_ns; from_ = m.state; to = next; reason = reason });
      },
    )

unfoldable pub on_kick :
    ℕ → ℕ → PeerStateMachine → Result TransitionErr (Unit {0}) × PeerStateMachine
on_kick deadline_ns_from_now now_ns m =
    transition kicked (bytes "kick-issued") now_ns
      (record m { kick_deadline_ns = some (u64 (now_ns + deadline_ns_from_now)) })

unfoldable pub on_reply : ℕ → PeerStateMachine → Result TransitionErr (Unit {0}) × PeerStateMachine
on_reply now_ns m = transition responding (bytes "reply-observed") now_ns (record m { strikes = 0 })

unfoldable pub on_drift : ℕ → PeerStateMachine → Result TransitionErr (Unit {0}) × PeerStateMachine
on_drift now_ns m =
    transition drift (bytes "drift-detected") now_ns
      (record m { strikes = (m.strikes + 1) % u32_mod })

unfoldable pub on_halt : ℕ → PeerStateMachine → Result TransitionErr (Unit {0}) × PeerStateMachine
on_halt now_ns m = transition halt (bytes "halt-predicate-fired") now_ns m

abbrev overdue : PeerState → Option ℕ → ℕ → Bool
overdue kicked (some deadline) now_ns = ltb deadline now_ns
overdue _ _ now_ns = false

unfoldable pub is_overdue : ℕ → PeerStateMachine → Bool
is_overdue now_ns m = overdue m.state m.kick_deadline_ns now_ns

-- `str::ends_with`.
unfoldable pub ends_with : Bytes → Bytes → Bool
ends_with [] p = same [] p
ends_with (c ∷ s) p = same (c ∷ s) p || ends_with s p

unfoldable pub is_op_halt_verb : Bytes → Bool
is_op_halt_verb verb =
    if same verb (bytes "OP-HALT") || same verb (bytes "EVT-HALT")
    then true
    else starts_with verb (bytes "EVT-") && ends_with verb (bytes "-HALT-EMIT")
