-- ===== src/Message/Quotes.antt =====
-- `rebuildWithQuotes` of src/irc/message.cpp.
use minbif.Prelude.{
  ℕ, zero, suc, ◌-◌, Bool, true, false, not, ◌&&◌, List, [], ◌∷◌, ◌++◌, none, some, Text, first,
  last?, has, length, take, ◌==◌, if◌then◌else◌,
}
use minbif.Result.{Result, ok, err, stuck, undefined, ◌>>=◌}
use minbif.Message.{Message, behind_first}

-- t[t.size() - 1] == '"', out of range for an empty text
unfoldable pub closing_quote : Text → Result Bool
closing_quote t = elim (last? t) [ none ↦ err undefined | some c ↦ ok (c == b'"') ]

-- The inner loop, behind an argument that ends in no quote: the text so far, what is left of the
-- arguments, and whether their end was reached.
unfoldable pub collect : Text → List Text → Result (Text × List Text × Bool)
collect s [] = ok (s, [], true)
collect s (a ∷ rest) = closing_quote a >>= λ e.
    if e then ok (s ++ b' ' ∷ a, rest, false) else collect (s ++ b' ' ∷ a) rest

-- the text without the quote at its end
unfoldable pub strip_quote : Text → Text
strip_quote t =
    if elim (last? t) [ none ↦ false | some c ↦ c == b'"' ] then take (length t - 1) t else t

-- The outer loop; each round takes at least one argument.
unfoldable pub rebuild_loop : ℕ → List Text → Result (List Text)
rebuild_loop zero args = err stuck
rebuild_loop (suc f) [] = ok []
rebuild_loop (suc f) (s ∷ rest) =
    if first s == b'"' && not (has b' ' s)
    then (do
      let t = behind_first s
      e ← closing_quote t
      (joined, left, over) ← (if e then ok (t, rest, false) else collect t rest)
      if over
          then ok (strip_quote joined ∷ left)
          else (do done ← rebuild_loop f left; ok (strip_quote joined ∷ done)))
    else (do done ← rebuild_loop f rest; ok (s ∷ done))

unfoldable pub rebuild_with_quotes : Message → Result Message
rebuild_with_quotes m = do
  args ← rebuild_loop (suc (length m.args)) m.args
  ok (record m { args = args })
