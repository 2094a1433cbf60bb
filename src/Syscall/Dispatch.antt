-- ===== src/Syscall/Dispatch.antt =====
-- One kernel and the calls made of it, in the order in which they are served: the system calls of
-- syscall/mod.rs that change its state, and the opening and closing of descriptors of vfs/mod.rs.
use asolaria_os.Prelude.{ℕ, Bytes, List, [], ◌∷◌, replicate}
use asolaria_os.Access.{HookwallVerdict}
use asolaria_os.FrameAlloc.{virtual_base_start}
use asolaria_os.Envelope.{initial}
use asolaria_os.Envelope.Mailbox.{alone}
use asolaria_os.Vfs.{vfs_open, vfs_close}
use asolaria_os.Syscall.{
  Kernel, sys_read, sys_write, sys_exec, sys_fork, sys_mmap, sys_munmap, sys_time,
  sys_envelope_send, sys_envelope_recv, sys_hookwall_post, sys_cosign_append,
}

pub data Call : Type 0 where
  read : ℕ → Bytes → ℕ → Call
  write : ℕ → Bytes → Call
  exec : Bytes → Call
  fork : Call
  mmap : ℕ → ℕ → Call
  munmap : ℕ → ℕ → Call
  time : Call
  envelope_send : Bytes → ℕ → Call
  envelope_recv : Bytes → ℕ → Call
  post_hook : Bytes → HookwallVerdict → Call
  cosign_append : Bytes → Call
  open_path : Bytes → ℕ → Call
  close_fd : ℕ → Call

-- What a call does to the kernel, when no other call runs at the same time.
unfoldable pub serve : Call → Kernel → Kernel
serve (read fd buf len) k = (sys_read fd buf len k).2
serve (write fd buf) k = (sys_write fd buf k).1
serve (exec env) k = (sys_exec env k).1
serve fork k = (sys_fork k).1
serve (mmap len prot) k = (sys_mmap len prot k).1
serve (munmap addr len) k = (sys_munmap addr len k).1
serve time k = (sys_time k).1
serve (envelope_send env route_hint) k = (sys_envelope_send env route_hint k).1
serve (envelope_recv buf max_wait_ns) k = (sys_envelope_recv alone buf max_wait_ns k).2
serve (post_hook env verdict) k = (sys_hookwall_post env verdict k).1
serve (cosign_append row) k = (sys_cosign_append row k).1
serve (open_path path mode) k = record k { table = (vfs_open path mode k.table).1 }
serve (close_fd fd) k = record k { table = (vfs_close fd k.table).1 }

unfoldable pub serve_all : List Call → Kernel → Kernel
serve_all [] k = k
serve_all (c ∷ cs) k = serve_all cs (serve c k)

-- The static initialisers.
abbrev pub booted : Kernel
booted = record {
  table = replicate 256 0;
  slot = initial;
  next_virtual_base = virtual_base_start;
  exec_handle_next = 1;
  spawn_child_counter = 0;
  monotonic_counter = 0;
  append_seq = 0;
}
