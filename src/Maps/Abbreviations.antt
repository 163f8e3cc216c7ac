-- ===== src/Maps/Abbreviations.antt =====
-- The names of MAP's map_commands in src/irc/cmds_accounts.cpp, which may be shortened.
use minbif.Prelude.{
  ℕ, zero, suc, ◌≡◌, subst, true, false, [], ◌∷◌, Option, none, some, Text, is_empty, get_elem?,
  arith,
}
use minbif.Maps.Dispatch.{Command, map_commands, is_start, find_map_command}

-- A row of the table: its command is the one run for a start of its name.
Runs : Text → Option (Text × Command) → Type 0
Runs arg none = Unit
Runs arg (some (name, c)) = is_start arg name ≡ true → find_map_command arg map_commands ≡ some c

row-Runs : (x : ℕ) (arg : Text) (i : ℕ) → Runs (x ∷ arg) (get_elem? map_commands i)
unfolding Runs find_map_command map_commands is_start
row-Runs x arg zero = λ h. ground arith
row-Runs x arg (suc zero) = λ h. ground arith
row-Runs x arg (suc (suc zero)) = λ h. ground arith
row-Runs x arg (suc (suc (suc zero))) = λ h. ground arith
row-Runs x arg (suc (suc (suc (suc zero)))) = λ h. ground arith
row-Runs x arg (suc (suc (suc (suc (suc zero))))) = λ h. ground arith
row-Runs x arg (suc (suc (suc (suc (suc (suc zero)))))) = λ h. ground arith
row-Runs x arg (suc (suc (suc (suc (suc (suc (suc i))))))) = tt

-- Any start of a command's name that is not empty runs that command: no start of one name is taken by
-- a command of another kind.
pub find_map_command-is_start :
    (arg : Text) (i : ℕ) (name : Text) (c : Command)
    → is_empty arg ≡ false
    → get_elem? map_commands i ≡ some (name, c)
    → is_start arg name ≡ true
    → find_map_command arg map_commands ≡ some c
unfolding Runs
find_map_command-is_start [] i name c e h b = cc
find_map_command-is_start (x ∷ arg) i name c e h b =
    let run : Runs (x ∷ arg) (some (name, c)) = subst (Runs (x ∷ arg)) h (row-Runs x arg i) in run b
