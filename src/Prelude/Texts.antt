-- ===== src/Prelude/Texts.antt =====
-- The characters of a text, and the text of some characters.
use Prim.Native.Char.{Char}
use Prim.Native.String.{String, [] as empty, ◌∷◌ as ◌∷∷◌}
use mathlib.Core.List.{List, [], ◌∷◌}
use mathlib.Core.Path.{◌≡◌, refl, ap}

abbrev pub characters : String → List Char
characters empty = []
characters (c ∷∷ s) = c ∷ characters s

abbrev pub of_characters : List Char → String
of_characters [] = empty
of_characters (c ∷ cs) = c ∷∷ of_characters cs

pub characters-of_characters : (cs : List Char) → characters (of_characters cs) ≡ cs
characters-of_characters [] = refl
characters-of_characters (c ∷ cs) = ap (λ r. c ∷ r) (characters-of_characters cs)

pub of_characters-characters : (s : String) → of_characters (characters s) ≡ s
of_characters-characters empty = refl
of_characters-characters (c ∷∷ s) = ap (λ r. c ∷∷ r) (of_characters-characters s)
