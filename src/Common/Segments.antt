-- ===== src/Common/Segments.antt =====
-- `memcpy` into an array and the reading of a slice of it.
use Prim.Native.Nat.{ℕ, ◌+◌, ◌≤◌}
use mathlib.Core.Path.{◌≡◌}
use mathlib.Core.List.{List, ◌++◌}
use native.Mathlib.Omega.{arith}
use app_exchange.Common.Lists.{length, take, drop, length-append, length-take, length-drop}

module _ {ℓ} {A : Type ℓ} where
  -- `memcpy(dst + at, src, length src)`, the rest of `dst` kept.
  abbrev pub write_at : List A → ℕ → List A → List A
  write_at dst start src = take start dst ++ (src ++ drop (start + length src) dst)

  pub length-write_at :
      (dst : List A) (start : ℕ) (src : List A)
      → start + length src ≤ length dst
      → length (write_at dst start src) ≡ length dst
  length-write_at dst start src h = omega (
    arith,
    length-append (take start dst) (src ++ drop (start + length src) dst),
    length-append src (drop (start + length src) dst),
    length-take start dst,
    length-drop (start + length src) dst,
  )
