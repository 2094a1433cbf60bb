-- ===== src/Syscall/Loopback.antt =====
-- An envelope through the kernel: sent, kept while other calls are served, received
-- (syscall/mod.rs, envelope/mod.rs).
use asolaria_os.Prelude.{
  ℕ, ◌≤◌, ◌≡◌, refl, ap, ◌∙◌, List, [], ◌∷◌, ◌++◌, Bool, true, false, none, arith, Bytes, length,
  drop, all, ltb, ◌==◌, is_empty, Result, ok,
}
use asolaria_os.Envelope.{empty, min_envelope_bytes, envelope_slot_bytes, dispatch_enqueue_bytes}
use asolaria_os.Envelope.Mailbox.{view, alone, send-receive}
use asolaria_os.Syscall.{
  Kernel, send_reply, recv_reply, sys_fork, sys_mmap, sys_munmap, sys_time, sys_envelope_send,
  sys_envelope_recv, sys_hookwall_post, sys_cosign_append,
}
use asolaria_os.Syscall.Invariant.{IsSound, if_both}
use asolaria_os.Syscall.Dispatch.{
  Call, read, write, exec, fork, mmap, munmap, time, envelope_send, envelope_recv, post_hook,
  cosign_append, open_path, close_fd, serve, serve_all,
}

-- The calls that do not touch the envelope slot.
abbrev pub spares_slot : Call → Bool
spares_slot (read fd buf len) = false
spares_slot (write fd buf) = false
spares_slot (exec env) = false
spares_slot (envelope_send env route_hint) = false
spares_slot (envelope_recv buf wait) = false
spares_slot _ = true

serve-slot : (c : Call) (k : Kernel) → spares_slot c ≡ true → (serve c k).slot ≡ k.slot
unfolding serve sys_fork sys_mmap sys_munmap sys_time sys_hookwall_post sys_cosign_append
serve-slot (read fd buf len) k h = cc
serve-slot (write fd buf) k h = cc
serve-slot (exec env) k h = cc
serve-slot fork k h = refl
serve-slot (mmap len prot) k h =
    if_both (λ (r : Result _ ℕ × Kernel). r.1.slot ≡ k.slot) (len == 0) _ _ refl
      (if_both (λ (r : Result _ ℕ × Kernel). r.1.slot ≡ k.slot) (prot == 0) _ _ refl refl)
serve-slot (munmap addr len) k h =
    if_both (λ (r : Result _ (Unit {0}) × Kernel). r.1.slot ≡ k.slot) (addr == 0) _ _ refl
      (if_both (λ (r : Result _ (Unit {0}) × Kernel). r.1.slot ≡ k.slot) (len == 0) _ _ refl refl)
serve-slot time k h = refl
serve-slot (envelope_send env route_hint) k h = cc
serve-slot (envelope_recv buf wait) k h = cc
serve-slot (post_hook env verdict) k h =
    if_both (λ (r : Result _ (Unit {0}) × Kernel). r.1.slot ≡ k.slot) (ltb (length env) 2) _ _ refl
      refl
serve-slot (cosign_append row) k h =
    if_both (λ (r : Result _ ℕ × Kernel). r.1.slot ≡ k.slot) (ltb (length row) 16) _ _ refl refl
serve-slot (open_path path mode) k h = refl
serve-slot (close_fd fd) k h = refl

serve_all-slot :
    (cs : List Call) (k : Kernel) → all spares_slot cs ≡ true → (serve_all cs k).slot ≡ k.slot
unfolding serve_all
serve_all-slot [] k h = refl
serve_all-slot (c ∷ cs) k h =
    serve_all-slot cs (serve c k) (ground arith) ∙ serve-slot c k (ground arith)

-- An envelope of 32 to 1024 bytes sent while the slot is empty arrives unchanged at a receive whose
-- buffer it fits, whatever calls that spare the slot are served in between; then the slot is empty.
pub send-recv :
    (env buf : Bytes) (route_hint max_wait_ns : ℕ) (between : List Call) (k : Kernel)
    → IsSound k
    → k.slot.state ≡ empty
    → min_envelope_bytes ≤ length env
    → length env ≤ envelope_slot_bytes
    → length env ≤ length buf
    → all spares_slot between ≡ true
    → let (sent, k1) = sys_envelope_send env route_hint k in
      let (got, buf', k2) = sys_envelope_recv alone buf max_wait_ns (serve_all between k1) in
      (sent ≡ ok tt)
      × (got ≡ ok (length env))
      × (buf' ≡ env ++ drop (length env) buf)
      × (view k2.slot ≡ none)
unfolding sys_envelope_send sys_envelope_recv
send-recv env buf route_hint max_wait_ns between k s e low high room spare =
    let long : ltb (length env) 32 ≡ false = ground arith in
    let some_room : is_empty buf ≡ false = ground arith in
    let k1 : Kernel = record k { slot = (dispatch_enqueue_bytes env route_hint k.slot).1 } in
    let kept = serve_all-slot between k1 spare in
    let (sent, got, buf', left) =
      send-receive env buf route_hint max_wait_ns k.slot s.slot e high room in
    rw (long, some_room, kept) (ap send_reply sent, ap recv_reply got, buf', left)
