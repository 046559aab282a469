-- ===== src/Base/Text.antt =====
-- Texts of the program as lists of character codes.
use Prim.Native.Nat.{ℕ}
use Prim.Native.Char.{code}
use Prim.Native.String.{String}
use mathlib.Core.List.{List, [], ◌∷◌}

-- The characters of an ASCII literal. `String` has constructors of its own under these names.
abbrev pub text : String → List ℕ
text String.[] = []
text (String.◌∷◌ c rest) = code c ∷ text rest
