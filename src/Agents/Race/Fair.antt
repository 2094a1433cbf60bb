-- ===== src/Agents/Race/Fair.antt =====
-- No two calls of `spawn_child_agent` get one handle (agent_runtime/mod.rs).
use asolaria_os.Prelude.{
  ℕ, zero, suc, ◌+◌, ◌≤◌, ◌<◌, ◌≡◌, refl, sym, subst, ap, inl, inr, List, [], ◌∷◌, Option, none,
  some, arith, All, set, get_elem?, length, length-set, replicate, length-replicate, leb, Result,
  ok, err, Bool-cases, Option-cases, u64, u64_mod,
}
use asolaria_os.Agents.{agent_registry_max, AgentErr, registry_full}
use asolaria_os.Agents.Race.{
  Caller, caller_step, Shared, shared_step, run_calls, fresh, handle, Differ, Distinct, IsBelow,
  granted, waiting, sum, IsFair, start, rolling_back, returned,
}

All-set :
    (P : Caller → Type 0) (ts : List Caller) (i : ℕ) (t : Caller)
    → All P ts
    → P t
    → All P (set ts i t)
All-set P [] i t h k = tt
All-set P (u ∷ ts) zero t h k = (k, h.1)
All-set P (u ∷ ts) (suc i) t h k = (h.0, All-set P ts i t h.1 k)

All-imp :
    (P Q : Caller → Type 0) (ts : List Caller) → ((t : Caller) → P t → Q t) → All P ts → All Q ts
All-imp P Q [] f h = tt
All-imp P Q (t ∷ ts) f h = (f t h.0, All-imp P Q ts f h.1)

All-get :
    (P : Caller → Type 0) (ts : List Caller) (i : ℕ) (t : Caller)
    → get_elem? ts i ≡ some t
    → All P ts
    → P t
All-get P [] i t e h = cc
All-get P (u ∷ ts) zero t e h = let k : u ≡ t = cc in subst P k h.0
All-get P (u ∷ ts) (suc i) t e h = All-get P ts i t e h.1

Differ-sym : (a b : Option ℕ) → Differ a b → Differ b a
Differ-sym none none h = tt
Differ-sym none (some b) h = tt
Differ-sym (some a) none h = tt
Differ-sym (some a) (some b) h = λ e. h (sym e)

Distinct-set :
    (ts : List Caller) (i : ℕ) (t : Caller)
    → Distinct ts
    → All (λ u. Differ (handle t) (handle u)) ts
    → Distinct (set ts i t)
Distinct-set [] i t d h = tt
Distinct-set (u ∷ ts) zero t d h = (h.1, d.1)
Distinct-set (u ∷ ts) (suc i) t d h = (
  All-set (λ v. Differ (handle u) (handle v)) ts i t d.0 (Differ-sym (handle t) (handle u) h.0),
  Distinct-set ts i t d.1 h.1,
)

sum-set :
    (f : Caller → ℕ) (ts : List Caller) (i : ℕ) (t t' : Caller)
    → get_elem? ts i ≡ some t
    → sum f (set ts i t') + f t ≡ sum f ts + f t'
sum-set f [] i t t' e = cc
sum-set f (u ∷ ts) zero t t' e = let k : u ≡ t = cc in rw k (omega arith)
sum-set f (u ∷ ts) (suc i) t t' e = omega (arith, sum-set f ts i t t' e)

sum-waiting_le : (ts : List Caller) → sum waiting ts ≤ length ts
sum-waiting_le [] = omega arith
sum-waiting_le (t ∷ ts) = ground (arith, sum-waiting_le ts)

IsBelow-mono : (m n : ℕ) (t : Caller) → m ≤ n → IsBelow m t → IsBelow n t
IsBelow-mono m n start h k = tt
IsBelow-mono m n rolling_back h k = omega arith
IsBelow-mono m n (returned (ok x)) h (a, b, c) = (a, omega arith, c)
IsBelow-mono m n (returned (err e)) h k = tt

IsBelow-cap : (c : ℕ) (t : Caller) → IsBelow c t → IsBelow agent_registry_max t
IsBelow-cap c start k = tt
IsBelow-cap c rolling_back k = omega arith
IsBelow-cap c (returned (ok x)) (a, b, m) = (a, m, m)
IsBelow-cap c (returned (err e)) k = tt

-- A handle above the counter is new.
Differ-next : (c : ℕ) (t : Caller) → IsBelow c t → Differ (some (c + 1)) (handle t)
Differ-next c start k = tt
Differ-next c rolling_back k = tt
Differ-next c (returned (ok x)) (a, b, m) = λ e. omega arith
Differ-next c (returned (err e)) k = tt

All-true : (ts : List Caller) → All (λ u. Differ none (handle u)) ts
All-true [] = tt
All-true (t ∷ ts) = (tt, All-true ts)

set_same : (ts : List Caller) (i : ℕ) (t : Caller) → get_elem? ts i ≡ some t → set ts i t ≡ ts
set_same [] i t e = refl
set_same (u ∷ ts) zero t e = cc
set_same (u ∷ ts) (suc i) t e = ap (◌∷◌ u) (set_same ts i t e)

module _ (ts : List Caller) (c i : ℕ) (small : length ts + agent_registry_max < u64_mod) where
  start-IsFair :
      get_elem? ts i ≡ some start
      → IsFair (record { callers = ts; counter = c })
      → IsFair
          (record { callers = set ts i (caller_step start c).0; counter = (caller_step start c).1 })
  unfolding caller_step
  start-IsFair e v =
      let w : (t : Caller) → sum waiting (set ts i t) + 1 ≡ sum waiting ts + waiting t =
        λ t. sum-set waiting ts i start t e in
      let g : (t : Caller) → sum granted (set ts i t) + 0 ≡ sum granted ts + granted t =
        λ t. sum-set granted ts i start t e in
      elim (Bool-cases (leb agent_registry_max c)) [
        | inl full ↦
            let le : agent_registry_max ≤ c = ground arith in
            let n : u64 (c + 1) ≡ c + 1 = omega (arith, v.room, w rolling_back, small) in
            rw (full, n)
              (record {
                below =
                    All-set (IsBelow (c + 1)) ts i rolling_back
                      (All-imp (IsBelow c) (IsBelow (c + 1)) ts
                        (λ t. IsBelow-mono c (c + 1) t (omega arith)) v.below)
                      (omega arith);
                distinct = Distinct-set ts i rolling_back v.distinct (All-true ts);
                exact = omega (arith, g rolling_back, v.exact, le);
                room = omega (arith, w rolling_back, v.room, length-set ts i rolling_back);
              })
        | inr free ↦
            let lt : c < agent_registry_max = ground arith in
            let n : u64 (c + 1) ≡ c + 1 = omega (arith, lt) in
            rw (free, n)
              (record {
                below =
                    All-set (IsBelow (c + 1)) ts i (returned (ok (c + 1)))
                      (All-imp (IsBelow c) (IsBelow (c + 1)) ts
                        (λ t. IsBelow-mono c (c + 1) t (omega arith)) v.below)
                      (omega arith, omega arith, omega arith);
                distinct = Distinct-set ts i (returned (ok (c + 1))) v.distinct (
                    All-imp (IsBelow c) (λ u. Differ (some (c + 1)) (handle u)) ts (Differ-next c)
                      v.below);
                exact = omega (arith, g (returned (ok (c + 1))), v.exact, lt);
                room = omega (
                  arith,
                  w (returned (ok (c + 1))),
                  v.room,
                  length-set ts i (returned (ok (c + 1))),
                );
              })
      ]

  rolling_back-IsFair :
      get_elem? ts i ≡ some rolling_back
      → IsFair (record { callers = ts; counter = c })
      → IsFair (record {
        callers = set ts i (returned (err registry_full));
        counter = agent_registry_max;
      })
  rolling_back-IsFair e v =
      let t' = returned (err registry_full) in
      let le : agent_registry_max ≤ c = All-get (IsBelow c) ts i rolling_back e v.below in
      record {
        below =
            All-set (IsBelow agent_registry_max) ts i t'
              (All-imp (IsBelow c) (IsBelow agent_registry_max) ts (IsBelow-cap c) v.below) tt;
        distinct = Distinct-set ts i t' v.distinct (All-true ts);
        exact = omega (arith, sum-set granted ts i rolling_back t' e, v.exact, le);
        room = omega (arith, sum-waiting_le (set ts i t'));
      }

  returned-IsFair :
      (r : Result AgentErr ℕ)
      → get_elem? ts i ≡ some (returned r)
      → IsFair (record { callers = ts; counter = c })
      → IsFair (record { callers = set ts i (returned r); counter = c })
  returned-IsFair r e v = rw (set_same ts i (returned r) e) v

  step-IsFair :
      (t : Caller)
      → get_elem? ts i ≡ some t
      → IsFair (record { callers = ts; counter = c })
      → IsFair (record { callers = set ts i (caller_step t c).0; counter = (caller_step t c).1 })
  unfolding caller_step
  step-IsFair start e v = start-IsFair e v
  step-IsFair rolling_back e v = rolling_back-IsFair e v
  step-IsFair (returned r) e v = returned-IsFair r e v

shared_step-IsFair :
    (w : Shared) (i : ℕ)
    → length w.callers + agent_registry_max < u64_mod
    → IsFair w
    → IsFair (shared_step w i) × (length (shared_step w i).callers ≡ length w.callers)
unfolding shared_step
shared_step-IsFair w i small v = elim (Option-cases (get_elem? w.callers i)) [
  | inl missing ↦ rw (shared_step, missing) (v, refl)
  | inr (t, found) ↦
      rw (shared_step, found)
        (
          step-IsFair w.callers w.counter i small t found v,
          length-set w.callers i (caller_step t w.counter).0,
        )
]

run_calls-IsFair :
    (w : Shared) (schedule : List ℕ)
    → length w.callers + agent_registry_max < u64_mod
    → IsFair w
    → IsFair (run_calls w schedule)
unfolding run_calls
run_calls-IsFair w [] small v = v
run_calls-IsFair w (i ∷ schedule) small v =
    let (next, len) = shared_step-IsFair w i small v in
    run_calls-IsFair (shared_step w i) schedule (omega (arith, small, len)) next

All-IsBelow : (n : ℕ) → All (IsBelow 0) (replicate n start)
All-IsBelow zero = tt
All-IsBelow (suc n) = (tt, All-IsBelow n)

All-apart : (n : ℕ) → All (λ u. Differ none (handle u)) (replicate n start)
All-apart n = All-true (replicate n start)

all-Distinct : (n : ℕ) → Distinct (replicate n start)
all-Distinct zero = tt
all-Distinct (suc n) = (All-apart n, all-Distinct n)

none_granted : (n : ℕ) → sum granted (replicate n start) ≡ 0
none_granted zero = refl
none_granted (suc n) = omega (arith, none_granted n)

fresh-IsFair : (n : ℕ) → IsFair (fresh n)
fresh-IsFair n = record {
  below = All-IsBelow n;
  distinct = all-Distinct n;
  exact = omega (arith, none_granted n);
  room = omega (arith, sum-waiting_le (replicate n start));
}

-- Under any interleaving of the accesses of `n` calls on a fresh counter, with `n` below 2^64 less
-- 10,000, no two calls get the same handle, each handle is between 1 and 10,000, and there are as
-- many as the counter says, up to 10,000.
pub run_calls-fresh-IsFair :
    (n : ℕ) (schedule : List ℕ)
    → n + agent_registry_max < u64_mod
    → IsFair (run_calls (fresh n) schedule)
run_calls-fresh-IsFair n schedule small =
    run_calls-IsFair (fresh n) schedule (omega (arith, small, length-replicate n start))
      (fresh-IsFair n)
