-- ===== src/Syscall/Handles.antt =====
-- The handles that `sys_fork` mints and the stamps of `sys_time`, over any run of calls
-- (syscall/mod.rs, agent_runtime/mod.rs).
use asolaria_os.Prelude.{
  ℕ, ◌+◌, ◌≤◌, ◌<◌, ◌≡◌, inl, inr, refl, ap, min, List, [], ◌∷◌, Bool, true, false, Bool-cases,
  arith, Bytes, length, ltb, leb, ◌==◌, is_empty, if◌then◌else◌, u64, u64_mod, Result, ok, err,
}
use asolaria_os.Access.{exhausted}
use asolaria_os.Envelope.{EnvelopeErr}
use asolaria_os.Agents.{agent_registry_max, spawn_child_agent}
use asolaria_os.Syscall.{
  Kernel, exec_reply, sys_read, sys_write, sys_exec, sys_fork, sys_mmap, sys_munmap, sys_time,
  sys_envelope_send, sys_envelope_recv, sys_hookwall_post, sys_cosign_append,
}
use asolaria_os.Syscall.Invariant.{IsSound, if_both, serve-IsSound, booted-IsSound}
use asolaria_os.Syscall.Dispatch.{
  Call, read, write, exec, fork, mmap, munmap, time, envelope_send, envelope_recv, post_hook,
  cosign_append, open_path, close_fd, serve, serve_all, booted,
}

abbrev pub is_fork : Call → Bool
is_fork fork = true
is_fork _ = false

abbrev pub is_time : Call → Bool
is_time time = true
is_time _ = false

abbrev pub count : (Call → Bool) → List Call → ℕ
count p [] = 0
count p (c ∷ cs) = (if p c then 1 else 0) + count p cs

-- The two counters after a call.
abbrev Moves : Call → Kernel → Kernel → Type 0
Moves c k k' =
    (k'.spawn_child_counter
      ≡ (if is_fork c then min 10_000 (k.spawn_child_counter + 1) else k.spawn_child_counter))
    × (k'.monotonic_counter
        ≡ (if is_time c then u64 (k.monotonic_counter + 1) else k.monotonic_counter))

abbrev Still : Kernel → Kernel → Type 0
Still k k' =
    (k'.spawn_child_counter ≡ k.spawn_child_counter) × (k'.monotonic_counter ≡ k.monotonic_counter)

exec_reply-counters :
    (r : Result EnvelopeErr (Unit {0})) (k : Kernel)
    → ((exec_reply r k).1.spawn_child_counter ≡ k.spawn_child_counter)
      × ((exec_reply r k).1.monotonic_counter ≡ k.monotonic_counter)
exec_reply-counters (ok _) k = (refl, refl)
exec_reply-counters (err e) k = (refl, refl)

serve-Moves :
    (c : Call) (k : Kernel) → k.spawn_child_counter ≤ agent_registry_max → Moves c k (serve c k)
unfolding serve sys_read sys_write sys_exec sys_fork sys_mmap sys_munmap sys_time sys_envelope_send
    sys_envelope_recv sys_hookwall_post sys_cosign_append spawn_child_agent
serve-Moves (read fd buf len) k s =
    if_both (λ (r : Result _ ℕ × Bytes × Kernel). Still k (r.2)) (ltb (length buf) len) _ _
      (refl, refl) (refl, refl)
serve-Moves (write fd buf) k s =
    if_both (λ (r : Result _ ℕ × Kernel). Still k (r.1)) (is_empty buf) _ _ (refl, refl)
      (refl, refl)
serve-Moves (exec env) k s =
    if_both (λ (r : Result _ ℕ × Kernel). Still k (r.1)) (ltb (length env) 32) _ _ (refl, refl)
      (exec_reply-counters _ _)
serve-Moves fork k s = (ground arith, refl)
serve-Moves (mmap len prot) k s =
    if_both (λ (r : Result _ ℕ × Kernel). Still k (r.1)) (len == 0) _ _ (refl, refl)
      (if_both (λ (r : Result _ ℕ × Kernel). Still k (r.1)) (prot == 0) _ _ (refl, refl)
        (refl, refl))
serve-Moves (munmap addr len) k s =
    if_both (λ (r : Result _ (Unit {0}) × Kernel). Still k (r.1)) (addr == 0) _ _ (refl, refl)
      (if_both (λ (r : Result _ (Unit {0}) × Kernel). Still k (r.1)) (len == 0) _ _ (refl, refl)
        (refl, refl))
serve-Moves time k s = (refl, refl)
serve-Moves (envelope_send env route_hint) k s =
    if_both (λ (r : Result _ (Unit {0}) × Kernel). Still k (r.1)) (ltb (length env) 32) _ _
      (refl, refl) (refl, refl)
serve-Moves (envelope_recv buf wait) k s =
    if_both (λ (r : Result _ ℕ × Bytes × Kernel). Still k (r.2)) (is_empty buf) _ _ (refl, refl)
      (refl, refl)
serve-Moves (post_hook env verdict) k s =
    if_both (λ (r : Result _ (Unit {0}) × Kernel). Still k (r.1)) (ltb (length env) 2) _ _
      (refl, refl) (refl, refl)
serve-Moves (cosign_append row) k s =
    if_both (λ (r : Result _ ℕ × Kernel). Still k (r.1)) (ltb (length row) 16) _ _ (refl, refl)
      (refl, refl)
serve-Moves (open_path path mode) k s = (refl, refl)
serve-Moves (close_fd fd) k s = (refl, refl)

serve_all-counters :
    (cs : List Call) (k : Kernel)
    → IsSound k
    → k.monotonic_counter < u64_mod
    → ((serve_all cs k).spawn_child_counter
        ≡ min agent_registry_max (k.spawn_child_counter + count is_fork cs))
      × ((serve_all cs k).monotonic_counter ≡ u64 (k.monotonic_counter + count is_time cs))
unfolding serve_all
serve_all-counters [] k s b = (omega (arith, s.forked), omega arith)
serve_all-counters (c ∷ cs) k s b =
    let (f, t) = serve-Moves c k s.forked in
    let (rest, stamps) =
      serve_all-counters cs (serve c k) (serve-IsSound c k s) (ground (arith, t)) in
    (ground (arith, f, rest, s.forked), ground (arith, t, stamps))

-- Whatever calls came before, `sys_fork` returns one more than the number of forks asked for so
-- far, and is exhausted after 10000 of them: no handle is 0 and no handle comes twice.
fork_after :
    (cs : List Call)
    → (sys_fork (serve_all cs booted)).0 ≡ (
        if ltb (count is_fork cs) agent_registry_max
        then ok (count is_fork cs + 1)
        else err exhausted)
unfolding sys_fork spawn_child_agent
fork_after cs =
    let (n, _) = serve_all-counters cs booted booted-IsSound (omega arith) in
    elim (Bool-cases (ltb (count is_fork cs) 10_000)) [
      | inl room ↦
          let e : (serve_all cs booted).spawn_child_counter ≡ count is_fork cs = ground arith in
          let b : leb 10_000 (count is_fork cs) ≡ false = ground arith in simp (e, b, room) refl
      | inr over ↦
          let e : (serve_all cs booted).spawn_child_counter ≡ 10_000 = ground arith in
          simp (e, over) refl
    ]

-- Whatever calls came before, `sys_time` returns the number of times it was asked so far, as a u64.
time_after : (cs : List Call) → (sys_time (serve_all cs booted)).0 ≡ ok (u64 (count is_time cs))
unfolding sys_time
time_after cs =
    let (_, t) = serve_all-counters cs booted booted-IsSound (omega arith) in
    ap ok (omega (arith, t))
