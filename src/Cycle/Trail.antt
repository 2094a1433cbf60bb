-- ===== src/Cycle/Trail.antt =====
-- The history of a peer is the path it took (cycle_orch/mod.rs).
use asolaria_os.Prelude.{
  ℕ, ◌+◌, ◌≤◌, ◌<◌, ◌≡◌, inl, inr, refl, ◌∙◌, sym, List, [], ◌∷◌, ◌++◌, Bytes, length,
  length-append, drop, ltb, ltb→lt, u64_mod, true, false, Bool-cases, arith, Result, err,
}
use asolaria_os.Cycle.{
  PeerState, dark, kicked, responding, drift, halt, TransitionErr, illegal_transition,
  TransitionRecord, PeerStateMachine, machine_new, remember, is_legal, transition, on_kick,
  on_reply, on_drift, on_halt, is_overdue,
}

-- What a peer can be told.
pub data Event : Type 0 where
  move : PeerState → Bytes → Event
  kick : ℕ → Event
  reply drift_seen halt_fired : Event

abbrev pub apply : Event → ℕ → PeerStateMachine → Result TransitionErr (Unit {0}) × PeerStateMachine
apply (move next reason) now_ns m = transition next reason now_ns m
apply (kick deadline) now_ns m = on_kick deadline now_ns m
apply reply now_ns m = on_reply now_ns m
apply drift_seen now_ns m = on_drift now_ns m
apply halt_fired now_ns m = on_halt now_ns m

abbrev pub apply_all : List (Event × ℕ) → PeerStateMachine → PeerStateMachine
apply_all [] m = m
apply_all ((e, now_ns) ∷ es) m = apply_all es ((apply e now_ns m).1)

-- The entries form a path of legal moves from `start` to `end`.
abbrev pub IsPath : PeerState → List TransitionRecord → PeerState → Type 0
IsPath start [] end = start ≡ end
IsPath start (t ∷ ts) end = (t.from_ ≡ start) × (is_legal t.from_ t.to ≡ true) × IsPath t.to ts end

pub record IsTrail (m : PeerStateMachine) : Type 0 where
  pub start : PeerState
  pub path : IsPath start m.history m.state
  pub bounded : length m.history ≤ 256
  pub whole : length m.history < 256 → start ≡ dark

IsPath-append :
    (start mid : PeerState) (ts : List TransitionRecord) (t : TransitionRecord)
    → IsPath start ts mid
    → t.from_ ≡ mid
    → is_legal t.from_ t.to ≡ true
    → IsPath start (ts ++ t ∷ []) t.to
IsPath-append start mid [] t p f l = (f ∙ sym p, l, refl)
IsPath-append start mid (x ∷ ts) t (a, b, c) f l = (a, b, IsPath-append x.to mid ts t c f l)

IsPath-drop :
    (start end : PeerState) (ts : List TransitionRecord)
    → IsPath start ts end
    → (start' : PeerState) × IsPath start' (drop 1 ts) end
IsPath-drop start end [] p = (start, p)
IsPath-drop start end (t ∷ ts) (a, b, c) = (t.to, c)

length-drop_one :
    (ts : List TransitionRecord) → 256 < length ts → length ts ≤ 257 → length (drop 1 ts) ≡ 256
length-drop_one [] h k = absurd (omega arith)
length-drop_one (t ∷ ts) h k = omega arith

transition-IsTrail :
    (next : PeerState) (reason : Bytes) (now_ns : ℕ) (m : PeerStateMachine)
    → IsTrail m
    → IsTrail ((transition next reason now_ns m).1)
unfolding transition remember
transition-IsTrail next reason now_ns m t = elim (Bool-cases (is_legal m.state next)) [
  | inr illegal ↦ rw illegal t
  | inl legal ↦
      let entry : TransitionRecord = record {
        ts_ns = now_ns;
        from_ = m.state;
        to = next;
        reason = reason;
      } in
      let path = IsPath-append t.start m.state m.history entry t.path refl legal in
      let n = length-append m.history (entry ∷ []) in
      elim (Bool-cases (ltb 256 (length (m.history ++ entry ∷ [])))) [
        | inr short ↦
            rw (legal, short)
              (record {
                start = t.start;
                path = path;
                bounded = ground arith;
                whole = λ h. t.whole (ground (arith, n));
              })
        | inl long ↦
            let (start', path') = IsPath-drop t.start next (m.history ++ entry ∷ []) path in
            let k =
              length-drop_one (m.history ++ entry ∷ []) (ltb→lt _ _ long)
                (omega (arith, n, t.bounded)) in
            rw (legal, long)
              (record {
                start = start';
                path = path';
                bounded = omega (arith, k);
                whole = λ h. absurd (omega (arith, k));
              })
      ]
]

apply-IsTrail :
    (e : Event) (now_ns : ℕ) (m : PeerStateMachine) → IsTrail m → IsTrail ((apply e now_ns m).1)
unfolding on_kick on_reply on_drift on_halt
apply-IsTrail (move next reason) now_ns m t = transition-IsTrail next reason now_ns m t
apply-IsTrail (kick deadline) now_ns m t =
    transition-IsTrail kicked _ now_ns _
      (record { start = t.start; path = t.path; bounded = t.bounded; whole = t.whole })
apply-IsTrail reply now_ns m t =
    transition-IsTrail responding _ now_ns _
      (record { start = t.start; path = t.path; bounded = t.bounded; whole = t.whole })
apply-IsTrail drift_seen now_ns m t =
    transition-IsTrail drift _ now_ns _
      (record { start = t.start; path = t.path; bounded = t.bounded; whole = t.whole })
apply-IsTrail halt_fired now_ns m t = transition-IsTrail halt _ now_ns m t

-- Whatever a new peer is told, its history is a path of legal moves that ends in its present state
-- and holds at most 256 of them; while it holds fewer, it starts at the dark state.
pub apply_all-IsTrail :
    (es : List (Event × ℕ)) (peer : Bytes) → IsTrail (apply_all es (machine_new peer))
unfolding machine_new
apply_all-IsTrail es peer =
    keeps es _ (record { start = dark; path = refl; bounded = omega arith; whole = λ h. refl })
  where
    keeps : (es : List (Event × ℕ)) (m : PeerStateMachine) → IsTrail m → IsTrail (apply_all es m)
    keeps [] m t = t
    keeps ((e, now_ns) ∷ es) m t = keeps es _ (apply-IsTrail e now_ns m t)

-- Kicking a peer that is already kicked is refused, and still moves the deadline: a peer that was
-- overdue at `t` no longer is, if the new deadline is not before `t`.
refused_kick_extends :
    (deadline now_ns t : ℕ) (m : PeerStateMachine)
    → m.state ≡ kicked
    → is_overdue t m ≡ true
    → t ≤ now_ns + deadline
    → now_ns + deadline < u64_mod
    → ((on_kick deadline now_ns m).0 ≡ err illegal_transition)
      × (is_overdue t ((on_kick deadline now_ns m).1) ≡ false)
unfolding on_kick transition is_legal is_overdue
refused_kick_extends deadline now_ns t m e late fits small = simp e (refl, ground arith)
