-- ===== src/Common/Text.antt =====
-- Character arrays: C strings as lists of bytes, with the functions of <string.h> on them.
use Prim.Native.Nat.{ℕ, ◌-◌, ◌≤◌}
use Prim.Native.Char.{code}
use Prim.Native.String.{String}
use mathlib.Core.Path.{◌≡◌, refl}
use mathlib.Core.Bool.{Bool}
use mathlib.Core.List.{List, [], ◌∷◌, ◌++◌}
use native.Mathlib.Omega.{arith}
use app_exchange.Common.Tests.{◌==◌, if◌then◌else◌, bytes_eq}
use app_exchange.Common.Lists.{length, take, replicate, All}
use app_exchange.Common.Segments.{write_at}

-- The bytes of an ASCII text, without the terminator.
abbrev pub codes : String → List ℕ
codes String.[] = []
codes (String.◌∷◌ c s) = code c ∷ codes s

-- The bytes in front of the first NUL, or all of them.
unfoldable pub c_string : List ℕ → List ℕ
c_string [] = []
c_string (c ∷ s) = if c == 0 then [] else c ∷ c_string s

-- `strncmp(a, b, n) == 0`, of two terminated strings given without their terminators.
unfoldable pub strncmp_eq : List ℕ → List ℕ → ℕ → Bool
strncmp_eq a b n = bytes_eq (take n a) (take n b)

-- `strlcpy(dst, src, size)` with `size` the length of `dst`; `src` is given without its terminator.
unfoldable pub strlcpy : List ℕ → List ℕ → ℕ → List ℕ
strlcpy dst src size = if size == 0 then dst else write_at dst 0 (take (size - 1) src ++ (0 ∷ []))

pub c_string-IsString : (s : List ℕ) → c_string (c_string s) ≡ c_string s
unfolding c_string
c_string-IsString [] = refl
c_string-IsString (c ∷ s) = ground (arith, c_string-IsString s)

-- What `strncpy(dst, src, n)` writes: the characters in front of the first NUL, then zeros.
unfoldable pub strncpy : List ℕ → ℕ → List ℕ
unfolding c_string
strncpy src n = let text = c_string (take n src) in text ++ replicate (n - length text) 0

-- A text without a NUL, terminated, is the C string.
pub c_string-terminated : (s rest : List ℕ) → All (λ c. 1 ≤ c) s → c_string (s ++ (0 ∷ rest)) ≡ s
unfolding c_string
c_string-terminated [] rest h = refl
c_string-terminated (c ∷ s) rest h = ground (arith, c_string-terminated s rest h.1)
