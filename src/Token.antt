-- ===== src/Token.antt =====
-- `stringtok` of src/core/util.cpp, and the loop that takes token after token with it.
pub mod Free
pub mod Words
use minbif.Prelude.{
  ℕ, zero, suc, ◌≡◌, refl, List, [], ◌∷◌, Text, codes, mem, length, is_empty, if◌then◌else◌,
}

-- the text from `find_first_not_of (delimiters, 0)` on
unfoldable pub skip : Text → Text → Text
skip ds [] = []
skip ds (c ∷ cs) = let rest = skip ds cs in if mem c ds then rest else c ∷ cs

-- the text up to `find_first_of (delimiters, 0)`, all of it at npos
unfoldable pub upto : Text → Text → Text
upto ds [] = []
upto ds (c ∷ cs) = if mem c ds then [] else c ∷ upto ds cs

-- the text behind `find_first_of (delimiters, 0)`, empty at npos
unfoldable pub behind : Text → Text → Text
behind ds [] = []
behind ds (c ∷ cs) = let rest = behind ds cs in if mem c ds then cs else rest

-- The token, and what `in` is left with.
unfoldable pub stringtok : Text → Text → Text × Text
unfolding skip upto behind
stringtok ds s = let t = skip ds s in (upto ds t, behind ds t)

-- while((tmp = stringtok(msg, ds)).empty() == false) ... tmp ...
unfoldable pub tokens_fuel : ℕ → Text → Text → List Text
tokens_fuel zero ds s = []
tokens_fuel (suc f) ds s =
    let rest = tokens_fuel f ds (stringtok ds s).1 in
    if is_empty (stringtok ds s).0 then [] else (stringtok ds s).0 ∷ rest

unfoldable pub tokens : Text → Text → List Text
unfolding tokens_fuel stringtok
tokens ds s = tokens_fuel (suc (length s)) ds s
