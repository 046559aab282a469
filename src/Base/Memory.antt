-- ===== src/Base/Memory.antt =====
-- Bytes of memory, as a function of the address: words, strings and buffers.
use Prim.Native.Nat.{ℕ, zero, suc, ◌+◌, ◌*◌, ◌/◌, ◌%◌, ◌^◌}
use mathlib.Core.List.{List, [], ◌∷◌}
use lightstreak_os.Base.Tests.{◌==◌, if◌then◌else◌}
use lightstreak_os.Base.Lists.{update, for_range}
use lightstreak_os.Base.Words.{add32}

abbrev pub Memory : Type 0
Memory = ℕ → ℕ

-- A word in four bytes, the lowest first.
pub store_word : ℕ → ℕ → Memory → Memory
store_word a w mem = for_range 4 0 (λ i m. update m (add32 a i) (w / 2 ^ (8 * i) % 2 ^ 8)) mem

unfoldable pub store_bytes : ℕ → ℕ → (ℕ → ℕ) → Memory → Memory
store_bytes a n bytes mem = for_range n 0 (λ i m. update m (add32 a i) (bytes i)) mem

-- A string with its NUL.
pub store_string : ℕ → List ℕ → Memory → Memory
store_string a [] mem = update mem a 0
store_string a (c ∷ str) mem = store_string (add32 a 1) str (update mem a c)

-- The characters from `a` on, in front of the first 0, of at most `n`.
unfoldable pub string_at : ℕ → Memory → ℕ → List ℕ
string_at zero mem a = []
string_at (suc n) mem a =
    let rest = string_at n mem (add32 a 1) in if mem a == 0 then [] else mem a ∷ rest

-- The word in the four bytes from `a` on.
unfoldable pub load_word : Memory → ℕ → ℕ
load_word mem a =
    mem a + mem (add32 a 1) * 2 ^ 8 + mem (add32 a 2) * 2 ^ 16 + mem (add32 a 3) * 2 ^ 24
