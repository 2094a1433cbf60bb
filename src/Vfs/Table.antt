-- ===== src/Vfs/Table.antt =====
-- The descriptor table of vfs/mod.rs: allocation, release, and which descriptors are open.
use asolaria_os.Prelude.{
  ℕ, zero, suc, ◌+◌, ◌/◌, ◌≤◌, ◌<◌, ◌≡◌, ◌≢◌, refl, sym, subst, ◌∙◌, ap, inl, inr, [], ◌∷◌, arith,
  Bytes, length, length-set, set, get_or, get_or-set_self, get_or-set_ne, is_empty, ◌==◌, ◌||◌, not,
  true, false, Bool-cases, ==_iff, Result, ok, err,
}
use asolaria_os.Vfs.{
  Table, VfsErr, invalid_fd, table_full, state_of, vfs_is_open, binding_kind_for_path, claim_lowest,
  vfs_open, vfs_close, fd_state_free, fd_table_size, reserved_fd_max,
}

set-get : (table : Table) (fd v : ℕ) → set (set table fd v) fd (get_or table fd 0) ≡ table
set-get [] fd v = refl
set-get (x ∷ table) zero v = refl
set-get (x ∷ table) (suc fd) v = ap (◌∷◌ x) (set-get table fd v)

set-set : (table : Table) (fd v : ℕ) → set (set table fd v) fd v ≡ set table fd v
set-set [] fd v = refl
set-set (x ∷ table) zero v = refl
set-set (x ∷ table) (suc fd) v = ap (◌∷◌ x) (set-set table fd v)

-- What the scan does: the lowest free slot from `fd` on, if there is one.
abbrev pub Lowest : ℕ → ℕ → ℕ → Table → Result VfsErr ℕ × Table → Type 0
Lowest fd end kind table (ok got, table') =
    (fd ≤ got)
    × (got < end)
    × (state_of table got ≡ fd_state_free)
    × ((j : ℕ) → fd ≤ j → j < got → state_of table j ≢ fd_state_free)
    × (table' ≡ set table got kind)
Lowest fd end kind table (err e, table') =
    (e ≡ table_full)
    × ((j : ℕ) → fd ≤ j → j < end → state_of table j ≢ fd_state_free)
    × (table' ≡ table)

widen :
    (table : Table) (fd end : ℕ)
    → state_of table fd ≢ fd_state_free
    → ((j : ℕ) → suc fd ≤ j → j < end → state_of table j ≢ fd_state_free)
    → (j : ℕ) → fd ≤ j
    → j < end
    → state_of table j ≢ fd_state_free
widen table fd end taken rest j a b = elim (Bool-cases (j == fd)) [
  | inl same ↦ let e : j ≡ fd = (==_iff j fd).0 same in rw e taken
  | inr later ↦ rest j (ground arith) b
]

Lowest-widen :
    (fd end kind : ℕ) (table : Table) (r : Result VfsErr ℕ) (t : Table)
    → state_of table fd ≢ fd_state_free
    → Lowest (suc fd) end kind table (r, t)
    → Lowest fd end kind table (r, t)
Lowest-widen fd end kind table (ok got) t taken (a, b, c, d, e) =
    (omega arith, b, c, widen table fd got taken d, e)
Lowest-widen fd end kind table (err x) t taken (a, d, e) = (a, widen table fd end taken d, e)

claim_lowest-Lowest :
    (rounds fd end kind : ℕ) (table : Table)
    → rounds + fd ≡ end
    → Lowest fd end kind table (claim_lowest rounds fd kind table)
unfolding claim_lowest
claim_lowest-Lowest zero fd end kind table h = (refl, λ j a b. absurd (omega arith), refl)
claim_lowest-Lowest (suc rounds) fd end kind table h =
    elim (Bool-cases (state_of table fd == fd_state_free)) [
      | inl free ↦
          rw free
            (omega arith, omega arith, (==_iff _ _).0 free, λ j a b. absurd (omega arith), refl)
      | inr taken ↦ rw taken (
          Lowest-widen fd end kind table _ _ (ground arith)
            (claim_lowest-Lowest rounds (suc fd) end kind table (omega arith)))
    ]

-- `vfs_open` hands out the lowest free descriptor above the reserved ones and marks it with the
-- path's binding, or fails because all are taken; any other failure is of the arguments.
pub vfs_open-Lowest :
    (path : Bytes) (mode : ℕ) (table : Table)
    → is_empty path ≡ false
    → 0 < mode
    → mode < 4
    → Lowest
        (suc reserved_fd_max)
        fd_table_size
        (binding_kind_for_path path)
        table
        (vfs_open path mode table)
unfolding vfs_open
vfs_open-Lowest path mode table p low high =
    let m : (mode == 0 || not (mode / 4 == 0)) ≡ false = ground arith in
    rw (p, m) (claim_lowest-Lowest 253 3 256 (binding_kind_for_path path) table (omega arith))

binding_pos : (path : Bytes) → (0 < binding_kind_for_path path) × (binding_kind_for_path path < 4)
unfolding binding_kind_for_path
binding_pos path = ground arith

-- A successful `vfs_open`, whatever its arguments.
vfs_open-parts :
    (path : Bytes) (mode : ℕ) (table table' : Table) (fd : ℕ)
    → vfs_open path mode table ≡ (ok fd, table')
    → Lowest (suc reserved_fd_max) fd_table_size (binding_kind_for_path path) table (ok fd, table')
unfolding vfs_open
vfs_open-parts path mode table table' fd e =
    let scanned : claim_lowest 253 3 (binding_kind_for_path path) table ≡ (ok fd, table') =
      ground arith in
    subst (Lowest 3 256 (binding_kind_for_path path) table) scanned
      (claim_lowest-Lowest 253 3 256 (binding_kind_for_path path) table (omega arith))

-- Opening makes exactly the descriptor handed out open, and it was not open before.
vfs_is_open-open :
    (path : Bytes) (mode : ℕ) (table table' : Table) (fd : ℕ)
    → length table ≡ fd_table_size
    → vfs_open path mode table ≡ (ok fd, table')
    → (length table' ≡ fd_table_size)
      × (vfs_is_open fd table ≡ false)
      × (vfs_is_open fd table' ≡ true)
      × ((j : ℕ) → j ≢ fd → vfs_is_open j table' ≡ vfs_is_open j table)
unfolding vfs_is_open
vfs_is_open-open path mode table table' fd n e =
    let (low, high, free, _, made) = vfs_open-parts path mode table table' fd e in
    let kind = binding_kind_for_path path in
    let now : state_of table' fd ≡ kind =
      ap (λ (t : Table). state_of t fd) made ∙ get_or-set_self table fd kind 0 (omega arith) in
    (
      ap length made ∙ length-set table fd kind ∙ n,
      ground arith,
      ground (arith, binding_pos path),
      λ j ne.
          let other : state_of table' j ≡ state_of table j =
            ap (λ (t : Table). state_of t j) made
            ∙ get_or-set_ne table fd j kind 0 (λ q. ne (sym q)) in
          ground arith,
    )

-- Closing the descriptor that `vfs_open` handed out gives the table back as it was.
pub close-open :
    (path : Bytes) (mode : ℕ) (table table' : Table) (fd : ℕ)
    → length table ≡ fd_table_size
    → vfs_open path mode table ≡ (ok fd, table')
    → vfs_close fd table' ≡ (ok tt, table)
unfolding vfs_close
close-open path mode table table' fd n e =
    let (low, high, free, _, made) = vfs_open-parts path mode table table' fd e in
    let kind = binding_kind_for_path path in
    let now : state_of table' fd ≡ kind =
      ap (λ (t : Table). state_of t fd) made ∙ get_or-set_self table fd kind 0 (omega arith) in
    let back : set table' fd fd_state_free ≡ table =
      ap (λ (t : Table). set t fd fd_state_free) made
      ∙ ap (set (set table fd kind) fd) (sym free)
      ∙ set-get table fd kind in
    ground (arith, binding_pos path)

-- A descriptor closes only while it is open and not reserved; then it is free, no other is
-- touched, and a second close is refused.
vfs_is_open-close :
    (fd : ℕ) (table table' : Table)
    → length table ≡ fd_table_size
    → vfs_close fd table ≡ (ok tt, table')
    → (reserved_fd_max < fd)
      × (vfs_is_open fd table ≡ true)
      × (vfs_is_open fd table' ≡ false)
      × ((j : ℕ) → j ≢ fd → vfs_is_open j table' ≡ vfs_is_open j table)
      × (vfs_close fd table' ≡ (err invalid_fd, table'))
unfolding vfs_is_open vfs_close
vfs_is_open-close fd table table' n e =
    let made : table' ≡ set table fd fd_state_free = ground arith in
    let range : (reserved_fd_max < fd) × (fd < fd_table_size) = ground arith in
    let now : state_of table' fd ≡ fd_state_free =
      ap (λ (t : Table). state_of t fd) made
      ∙ get_or-set_self table fd fd_state_free 0 (omega arith) in
    let again : set table' fd fd_state_free ≡ table' =
      ap (λ (t : Table). set t fd fd_state_free) made ∙ set-set table fd fd_state_free ∙ sym made in
    (
      range.0,
      ground arith,
      ground arith,
      λ j ne.
          let other : state_of table' j ≡ state_of table j =
            ap (λ (t : Table). state_of t j) made
            ∙ get_or-set_ne table fd j fd_state_free 0 (λ q. ne (sym q)) in
          ground arith,
      ground arith,
    )
