-- ===== src/Examples/Frames.antt =====
-- The page allocator at concrete inputs.
use asolaria_os.Prelude.{ℕ, ◌≡◌, refl, get_elem?, some, true, List, [], ◌∷◌, arith}
use asolaria_os.FrameAlloc.Bounds.{IsWatermark}
use asolaria_os.FrameAlloc.Race.{Thread, start, is_done, boot, run, returns_alone}

abbrev fresh : IsWatermark 4096
fresh = record { low = omega arith; high = omega arith; aligned = refl }

abbrev lens : List ℕ
lens = 5000 ∷ 4096 ∷ 0 ∷ []

returns_alone_example :
    (t' : Thread) × (get_elem? (run (boot lens) (1 ∷ 1 ∷ 1 ∷ [])).threads 1 ≡ some t')
    × (is_done t' ≡ true)
returns_alone_example = returns_alone (boot lens) 1 (start 4096) refl
