-- ===== src/Agents/Race.antt =====
-- `spawn_child_agent` of agent_runtime/mod.rs called from any number of threads: the `fetch_add` and
-- the `store` are one atomic step each, and a schedule says which thread makes the next one.
pub mod Fair
use asolaria_os.Prelude.{
  ℕ, zero, suc, ◌+◌, ◌≤◌, ◌<◌, ◌≡◌, ◌≢◌, refl, sym, subst, ap, inl, inr, List, [], ◌∷◌, Option,
  none, some, arith, All, set, get_elem?, length, length-set, replicate, length-replicate, leb, min,
  if◌then◌else◌, Result, ok, err, Bool-cases, Option-cases, u64, u64_mod,
}
use asolaria_os.Agents.{agent_registry_max, AgentErr, registry_full}

-- A call that has not yet begun, one that found the counter saturated and has yet to store it back,
-- and one that has returned.
pub data Caller : Type 0 where
  start : Caller
  rolling_back : Caller
  returned : Result AgentErr ℕ → Caller

-- One atomic access of `SPAWN_CHILD_COUNTER`.
unfoldable pub caller_step : Caller → ℕ → Caller × ℕ
caller_step start counter =
    if leb agent_registry_max counter
    then (rolling_back, u64 (counter + 1))
    else (returned (ok (counter + 1)), u64 (counter + 1))
caller_step rolling_back counter = (returned (err registry_full), agent_registry_max)
caller_step (returned r) counter = (returned r, counter)

pub record Shared : Type 0 where
  pub callers : List Caller
  pub counter : ℕ

unfoldable pub shared_step : Shared → ℕ → Shared
unfolding caller_step
shared_step w i = elim (get_elem? w.callers i) [
  | none ↦ w
  | some t ↦
      let (t', counter') = caller_step t w.counter in
      record { callers = set w.callers i t'; counter = counter' }
]

unfoldable pub run_calls : Shared → List ℕ → Shared
unfolding shared_step
run_calls w [] = w
run_calls w (i ∷ schedule) = run_calls (shared_step w i) schedule

-- `n` calls about to begin, on a counter at zero.
abbrev pub fresh : ℕ → Shared
fresh n = record { callers = replicate n start; counter = 0 }

abbrev pub handle : Caller → Option ℕ
handle (returned (ok h)) = some h
handle (returned (err e)) = none
handle start = none
handle rolling_back = none

abbrev pub Differ : Option ℕ → Option ℕ → Type 0
Differ (some a) (some b) = a ≢ b
Differ (some a) none = Unit
Differ none b = Unit

-- No two calls have the same handle.
abbrev pub Distinct : List Caller → Type 0
Distinct [] = Unit
Distinct (t ∷ ts) = All (λ u. Differ (handle t) (handle u)) ts × Distinct ts

-- A handle is between 1 and the counter, and at most 10,000; a call rolls back from a full counter.
abbrev pub IsBelow : ℕ → Caller → Type 0
IsBelow counter (returned (ok h)) = (1 ≤ h) × (h ≤ counter) × (h ≤ agent_registry_max)
IsBelow counter (returned (err e)) = Unit
IsBelow counter start = Unit
IsBelow counter rolling_back = agent_registry_max ≤ counter

abbrev pub granted : Caller → ℕ
granted t = elim (handle t) [ none ↦ 0 | some h ↦ 1 ]

abbrev pub waiting : Caller → ℕ
waiting start = 1
waiting rolling_back = 0
waiting (returned r) = 0

abbrev pub sum : (Caller → ℕ) → List Caller → ℕ
sum f [] = 0
sum f (t ∷ ts) = f t + sum f ts

pub record IsFair (w : Shared) : Type 0 where
  pub below : All (IsBelow w.counter) w.callers
  pub distinct : Distinct w.callers
  -- The handles granted are as many as the counter says.
  pub exact : sum granted w.callers ≡ min w.counter agent_registry_max
  -- The counter cannot wrap.
  pub room : w.counter + sum waiting w.callers ≤ agent_registry_max + length w.callers
