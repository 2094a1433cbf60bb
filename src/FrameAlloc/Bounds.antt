-- ===== src/FrameAlloc/Bounds.antt =====
-- What one caller gets from the allocator (frame_alloc/mod.rs).
use asolaria_os.Prelude.{ℕ, ◌+◌, ◌%◌, ◌≤◌, ◌<◌, ◌≡◌, ◌≢◌, arith, u64_mod, ok, err}
use asolaria_os.FrameAlloc.{
  page_bytes, virtual_base_start, virtual_base_end, bytes_needed, alloc_pages, free_pages,
  free_bytes, pool_exhausted,
}

-- The watermark stands on a page inside the pool, or at its end.
pub record IsWatermark (next : ℕ) : Type 0 where
  pub low : virtual_base_start ≤ next
  pub high : next ≤ virtual_base_end
  pub aligned : next % page_bytes ≡ 0

-- Whole pages, and at least `len` bytes where `len + 4095` is a usize.
bytes_needed_covers :
    (len : ℕ)
    → len + page_bytes ≤ u64_mod
    → (len ≤ bytes_needed len)
      × (bytes_needed len < len + page_bytes)
      × (bytes_needed len % page_bytes ≡ 0)
unfolding bytes_needed
bytes_needed_covers len h = omega arith

pub bytes_needed_aligned : (len : ℕ) → bytes_needed len % page_bytes ≡ 0
unfolding bytes_needed
bytes_needed_aligned len = omega arith

-- A granted block is a run of whole pages of the pool, it starts at the old watermark and ends at
-- the new one, it holds `len` bytes, and `free_pages` accepts it.
alloc_pages_grants :
    (len next base next' : ℕ)
    → IsWatermark next
    → len + page_bytes ≤ u64_mod
    → alloc_pages len next ≡ (ok base, next')
    → IsWatermark next'
      × (base ≡ next)
      × (base + len ≤ next')
      × (next' < base + len + page_bytes)
      × (free_pages base len ≡ ok tt)
unfolding alloc_pages free_pages
alloc_pages_grants len next base next' w h e = ground (arith, bytes_needed_covers len)

-- A request fails for want of room only, and then leaves the watermark alone.
alloc_pages-exhausted :
    (len next : ℕ)
    → IsWatermark next
    → len ≢ 0
    → len + page_bytes ≤ u64_mod
    → free_bytes next < len
    → alloc_pages len next ≡ (err pool_exhausted, next)
unfolding alloc_pages free_bytes
alloc_pages-exhausted len next w z h k = ground (arith, bytes_needed_covers len)

-- A request within 4095 bytes of the end of the address space wraps to no pages at all: it is
-- granted a block, and nothing is reserved for it.
alloc_pages_wraps :
    (len next : ℕ)
    → IsWatermark next
    → u64_mod < len + page_bytes
    → len < u64_mod
    → alloc_pages len next ≡ (ok next, next)
unfolding alloc_pages bytes_needed
alloc_pages_wraps len next w h k = ground arith
