-- ===== src/File/Io.antt =====
-- `fileread` and `filewrite` (src/kernel/file.c), on whatever pipes, devices and inodes do.
use enhanced_xv.Base.{
  ℕ, zero, suc, ◌/◌, ◌+◌, ◌-◌, ◌*◌, ◌<◌, ◌≤◌, ◌≡◌, sym, ◌||◌, Option, none, some, if◌then◌else◌,
  ◌==◌, add32, sub32, minus_one, int_lt, int_le, ◌≢◌, subst,
}
use enhanced_xv.Log.{maxopblocks}
use enhanced_xv.Fs.{bsize}
use enhanced_xv.File.{File, fd_none, fd_pipe, fd_inode, fd_device}

-- NDEV, and the most that one transaction of `filewrite` may write.
abbrev pub ndev : ℕ
ndev = 10

abbrev pub max_write : ℕ
max_write = (maxopblocks - 1 - 1 - 2) / 2 * bsize

-- The functions that move bytes between an object and the address of the caller, and their result: of the pipe
-- at a pointer, of the device of a major number, if it has one, and of the inode at a pointer, from an offset
-- on, under its lock and, for a write, in a transaction.
pub record Mover {ℓ} (U : Type ℓ) : Type ℓ where
  pub of_pipe : ℕ → ℕ → ℕ → U → U × ℕ
  pub of_device : ℕ → Option (ℕ → ℕ → U → U × ℕ)
  pub of_inode : ℕ → ℕ → ℕ → ℕ → U → U × ℕ

-- `if(r > 0) f->off += r;`
abbrev pub advanced : ℕ → File → File
advanced r f = if int_lt 0 r then record f { off = add32 f.off r } else f

module _ {ℓ} {U : Type ℓ} (move : Mover U) where
  abbrev pub device_io : File → ℕ → ℕ → U → File × U × ℕ
  device_io f addr n u =
      if int_lt f.major 0 || int_le ndev f.major
      then (f, u, minus_one)
      else elim (move.of_device f.major) [
        | none ↦ (f, u, minus_one)
        | some io ↦ let (u', r) = io addr n u in (f, u', r)
      ]

  -- `none` is a panic.
  unfoldable pub fileread : File → ℕ → ℕ → U → Option (File × U × ℕ)
  fileread f addr n u = if f.readable == 0 then some (f, u, minus_one) else elim f.ftype [
    | fd_pipe ↦ let (u', r) = move.of_pipe f.pipe addr n u in some (f, u', r)
    | fd_device ↦ some (device_io f addr n u)
    | fd_inode ↦ let (u', r) = move.of_inode f.ip addr f.off n u in some (advanced r f, u', r)
    | fd_none ↦ none
  ]

  -- The bytes of a turn.
  abbrev pub chunk : ℕ → ℕ → ℕ
  chunk n i = if int_lt max_write (sub32 n i) then max_write else sub32 n i

  -- The loop of `filewrite` from `i` bytes on; it ends with `i`.
  unfoldable pub write_loop : ℕ → ℕ → ℕ → ℕ → File → U → File × U × ℕ
  write_loop zero addr n i f u = (f, u, i)
  write_loop (suc fuel) addr n i f u =
      let step = move.of_inode f.ip (addr + i) f.off (chunk n i) u in
      let f' = advanced step.1 f in
      let rest = write_loop fuel addr n (add32 i step.1) f' step.0 in
      if int_lt i n then (if step.1 == chunk n i then rest else (f', step.0, i)) else (f, u, i)

  -- A turn that goes on writes at least a byte, so `n` turns are enough.
  unfoldable pub filewrite : File → ℕ → ℕ → U → Option (File × U × ℕ)
  filewrite f addr n u =
      let (f', u', i) = write_loop n addr n 0 f u in
      if f.writable == 0 then some (f, u, minus_one) else elim f.ftype [
        | fd_pipe ↦ let (u', r) = move.of_pipe f.pipe addr n u in some (f, u', r)
        | fd_device ↦ some (device_io f addr n u)
        | fd_inode ↦ some (f', u', if i == n then n else minus_one)
        | fd_none ↦ none
      ]

  -- The inode got the first bytes at `addr`, in pieces of at most `max_write` bytes, one behind the other from
  -- offset `off` on.
  pub data Written (ip addr off : ℕ) (u : U) : ℕ → U → Type ℓ where
    nothing : Written ip addr off u 0 u
    piece :
        {k : ℕ} {u' u'' : U} (m : ℕ)
        → Written ip addr off u k u'
        → 0 < m
        → m ≤ max_write
        → move.of_inode ip (addr + k) (off + k) m u' ≡ (u'', m)
        → Written ip addr off u (k + m) u''

  -- How a write of `n` bytes ends: all are written; or the piece behind the first `k` came back short, with
  -- the result `r` and the offset moved by it.
  pub data Outcome (f : File) (addr n : ℕ) (u : U) : File → U → ℕ → Type ℓ where
    whole :
        {u' : U}
        → Written f.ip addr f.off u n u'
        → Outcome f addr n u (record f { off = f.off + n }) u' n
    short :
        {u' u'' : U} (k m r : ℕ)
        → Written f.ip addr f.off u k u'
        → k + m ≤ n
        → 0 < m
        → m ≤ max_write
        → move.of_inode f.ip (addr + k) (f.off + k) m u' ≡ (u'', r)
        → r ≢ m
        → Outcome f addr n u (advanced r (record f { off = f.off + k })) u'' k

  -- The loop stops when everything is written.
  finished :
      (addr n i : ℕ) (f : File) (u0 u : U)
      → i ≡ n
      → Written f.ip addr f.off u0 i u
      → Outcome f addr n u0 (record f { off = f.off + i }) u i
  finished addr n i f u0 u e w =
      subst (λ k. Outcome f addr n u0 (record f { off = f.off + k }) u k) (sym e)
        (whole (subst (λ k. Written f.ip addr f.off u0 k u) e w))
