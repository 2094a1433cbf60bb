-- ===== src/FrameAlloc.antt =====
-- kernel/core/src/frame_alloc/mod.rs: the bump allocator behind `sys_mmap` and `sys_munmap`.
-- The atomic `NEXT_VIRTUAL_BASE` is the argument `next`; a function returns its new value with its
-- result. `usize` has 64 bits, and unchecked arithmetic wraps, as in the release profile.
pub mod Bounds
pub mod Race
use asolaria_os.Prelude.{
  ℕ, ◌+◌, ◌-◌, ◌*◌, ◌/◌, ◌%◌, min, ltb, leb, ◌==◌, ◌||◌, not, if◌then◌else◌, u64, u64_max, Result,
  ok, err, Bool, ◌>>◌, ◌>>=◌, guard,
}

abbrev pub page_bytes : ℕ
page_bytes = 4096

abbrev pub pool_pages : ℕ
pool_pages = 16384

abbrev pub pool_bytes : ℕ
pool_bytes = pool_pages * page_bytes

abbrev pub virtual_base_start : ℕ
virtual_base_start = 0x1000

abbrev pub virtual_base_end : ℕ
virtual_base_end = virtual_base_start + pool_bytes

pub data FrameErr : Type 0 where
  pool_exhausted invalid_len invalid_pointer not_page_aligned unimplemented : FrameErr

-- `pages_needed * PAGE_BYTES`
unfoldable pub bytes_needed : ℕ → ℕ
bytes_needed len =
    let pages_needed = u64 (len + page_bytes - 1) / page_bytes in u64 (pages_needed * page_bytes)

abbrev pub saturating_add : ℕ → ℕ → ℕ
saturating_add a b = min (a + b) u64_max

-- With no other caller the first `compare_exchange` succeeds.
unfoldable pub alloc_pages : ℕ → ℕ → Result FrameErr ℕ × ℕ
unfolding bytes_needed
alloc_pages len next =
    if len == 0
    then (err invalid_len, next)
    else let new_next = saturating_add next (bytes_needed len) in
      if ltb virtual_base_end new_next then (err pool_exhausted, next) else (ok next, new_next)

unfoldable pub free_pages : ℕ → ℕ → Result FrameErr (Unit {0})
free_pages p len = do
  guard (not (p == 0)) invalid_pointer
  guard (not (len == 0)) invalid_len
  guard (not (ltb p virtual_base_start || leb virtual_base_end p)) invalid_pointer
  guard (p % page_bytes == 0) not_page_aligned
  ok tt

unfoldable pub used_bytes : ℕ → ℕ
used_bytes next = next - virtual_base_start

unfoldable pub free_bytes : ℕ → ℕ
free_bytes next = virtual_base_end - next
