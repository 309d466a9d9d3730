-- ===== src/Text.antt =====
-- The string literals of the code, as the UTF-8 bytes that a String holds here. All are ASCII.
use Prim.Native.Char.{code}
use Prim.Native.String.{String}
use rust_media_libs.Prelude.{ℕ, ◌+◌, List, [], ◌∷◌, leb, ◌==◌, ◌&&◌, if◌then◌else◌}

abbrev pub text : String → List ℕ
text String.[] = []
text (String.◌∷◌ c rest) = code c ∷ text rest

-- A letter from A to Z in lower case.
abbrev pub lower : ℕ → ℕ
lower c = if leb 65 c && leb c 90 then c + 32 else c

-- `to_lowercase`, for comparisons with words of ASCII letters other than k: no other character has
-- a lower case that is one of those letters alone.
abbrev pub to_lowercase : List ℕ → List ℕ
to_lowercase [] = []
to_lowercase (c ∷ rest) = lower c ∷ to_lowercase rest

-- `if app.ends_with("/") { app.pop(); }`
abbrev pub drop_slash : List ℕ → List ℕ
drop_slash [] = []
drop_slash (c ∷ []) = if c == 47 then [] else c ∷ []
drop_slash (c ∷ d ∷ rest) = c ∷ drop_slash (d ∷ rest)
