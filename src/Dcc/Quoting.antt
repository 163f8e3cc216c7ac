-- ===== src/Dcc/Quoting.antt =====
-- Arguments in double quotes (src/irc/message.cpp), as an offer of src/irc/dcc.cpp has them.
use minbif.Prelude.{
  ℕ, zero, suc, ◌-◌, ◌≡◌, refl, ap, sym, ◌∙◌, Bool, true, false, not, ◌&&◌, List, [], ◌∷◌, ◌<◌,
  length-append, ◌++◌, append_assoc, append-nil, Text, codes, first, last?-append, has, is_empty,
  all, length, take, ◌==◌, arith,
}
use minbif.Result.{Result, ok, err, undefined, ◌>>=◌}
use minbif.Token.{behind}
use minbif.Token.Words.{
  clean, keep, words, words-append, words-step, words-nil, upto-clean, behind-clean,
}
use minbif.Message.{Message}
use minbif.Message.Quotes.{closing_quote, collect, strip_quote, rebuild_loop, rebuild_with_quotes}

-- not empty, with no space and no double quote
abbrev pub is_word : Text → Bool
is_word w = not (is_empty w) && clean (codes " \"") w

-- each word behind a space
abbrev pub trail : List Text → Text
trail [] = []
trail (w ∷ ws) = b' ' ∷ (w ++ trail ws)

-- the words, the last one with a quote at its end
abbrev pub closes : Text → List Text → List Text
closes w [] = (w ++ b'"' ∷ []) ∷ []
closes w (x ∷ xs) = w ∷ closes x xs

pub closing_quote_word : (w : Text) → is_word w ≡ true → closing_quote w ≡ ok false
unfolding closing_quote
closing_quote_word [] h = absurd (ground arith)
closing_quote_word (c ∷ []) h = ap ok (ground arith)
closing_quote_word (c ∷ d ∷ w) h = closing_quote_word (d ∷ w) (ground arith)

pub closing_quote_end : (w : Text) → closing_quote (w ++ b'"' ∷ []) ≡ ok true
unfolding closing_quote
closing_quote_end w = rw (closing_quote, last?-append w b'"') refl

pub take_front : (xs : Text) (y : ℕ) → take (length xs) (xs ++ y ∷ []) ≡ xs
take_front [] y = refl
take_front (x ∷ xs) y = ap (◌∷◌ x) (take_front xs y)

pub length-snoc : (xs : Text) (y : ℕ) → length (xs ++ y ∷ []) ≡ suc (length xs)
length-snoc [] y = refl
length-snoc (x ∷ xs) y = ap suc (length-snoc xs y)

strip_quote_end : (w : Text) → strip_quote (w ++ b'"' ∷ []) ≡ w
unfolding strip_quote
strip_quote_end w =
    let one : length (w ++ b'"' ∷ []) - 1 ≡ length w = omega (arith, length-snoc w b'"') in
    rw (strip_quote, last?-append w b'"')
      (ap (λ k. take k (w ++ b'"' ∷ [])) one ∙ take_front w b'"')

abbrev collected : List Text → Text → Result (Text × List Text × Bool)
collected rest t = ok (t, rest, false)

longer : (s x y q : Text) → (s ++ b' ' ∷ x) ++ b' ' ∷ (y ++ q) ≡ s ++ b' ' ∷ ((x ++ b' ' ∷ y) ++ q)
longer s x y q =
    append_assoc s (b' ' ∷ x) (b' ' ∷ (y ++ q))
    ∙ ap (λ t. s ++ b' ' ∷ t) (sym (append_assoc x (b' ' ∷ y) q))

collect-closes :
    (s x : Text) (xs rest : List Text)
    → all is_word (x ∷ xs) ≡ true
    → collect s (closes x xs ++ rest) ≡ ok (s ++ b' ' ∷ ((x ++ trail xs) ++ b'"' ∷ []), rest, false)
unfolding collect
collect-closes s x [] rest h = rw (closing_quote_end x, append-nil x) refl
collect-closes s x (y ∷ ys) rest h =
    let x_word : is_word x ≡ true = ground arith in
    let y_words : all is_word (y ∷ ys) ≡ true = ground arith in
    rw (closing_quote_word x x_word) (
      collect-closes (s ++ b' ' ∷ x) y ys rest y_words
      ∙ ap (collected rest) (longer s x (y ++ trail ys) (b'"' ∷ [])))

-- not empty, with no space
abbrev pub is_token : Text → Bool
is_token w = not (is_empty w) && clean (codes " ") w

-- the tokens of words behind one another
pub words-trail :
    (w : Text) (ws : List Text)
    → all is_token (w ∷ ws) ≡ true
    → words (codes " ") (w ++ trail ws) ≡ w ∷ ws
words-trail w [] h =
    let w_clean : clean (codes " ") w ≡ true = ground arith in
    let named : is_empty w ≡ false = ground arith in
    ap (words (codes " ")) (append-nil w)
    ∙ words-step (codes " ") w
    ∙ ap (λ t. keep t (words (codes " ") (behind (codes " ") w))) (upto-clean (codes " ") w w_clean)
    ∙ ap (λ t. keep w (words (codes " ") t)) (behind-clean (codes " ") w w_clean)
    ∙ ap (keep w) (words-nil (codes " "))
    ∙ rw named refl
words-trail w (x ∷ xs) h =
    let w_clean : clean (codes " ") w ≡ true = ground arith in
    let named : is_empty w ≡ false = ground arith in
    let rest : all is_token (x ∷ xs) ≡ true = ground arith in
    words-append (codes " ") w b' ' (x ++ trail xs) w_clean named refl
    ∙ ap (◌∷◌ w) (words-trail x xs rest)

-- the arguments of an offer, before and after the quotes are taken away
abbrev pub quoted : Text → List Text → List Text
quoted w [] = (b'"' ∷ (w ++ b'"' ∷ [])) ∷ []
quoted w (x ∷ xs) = (b'"' ∷ w) ∷ closes x xs

trail-closes :
    (w : Text) (ws : List Text) → trail (closes w ws) ≡ b' ' ∷ ((w ++ trail ws) ++ b'"' ∷ [])
trail-closes w [] = simp append-nil
trail-closes w (x ∷ xs) =
    ap (λ t. b' ' ∷ (w ++ t)) (trail-closes x xs)
    ∙ ap (◌∷◌ b' ') (sym (append_assoc w (b' ' ∷ (x ++ trail xs)) (b'"' ∷ [])))

pub trail-quoted :
    (w : Text) (ws : List Text) → trail (quoted w ws) ≡ b' ' ∷ b'"' ∷ ((w ++ trail ws) ++ b'"' ∷ [])
trail-quoted w [] = simp append-nil
trail-quoted w (x ∷ xs) =
    ap (λ t. b' ' ∷ b'"' ∷ (w ++ t)) (trail-closes x xs)
    ∙ ap (λ t. b' ' ∷ b'"' ∷ t) (sym (append_assoc w (b' ' ∷ (x ++ trail xs)) (b'"' ∷ [])))

pub trail-append : (xs ys : List Text) → trail (xs ++ ys) ≡ trail xs ++ trail ys
trail-append [] ys = refl
trail-append (x ∷ xs) ys =
    ap (λ t. b' ' ∷ (x ++ t)) (trail-append xs ys)
    ∙ ap (◌∷◌ b' ') (sym (append_assoc x (trail xs) (trail ys)))

-- The first round behind an argument that begins with no quote.
pub rebuild_plain :
    (f : ℕ) (s : Text) (rest done : List Text)
    → (first s == b'"') ≡ false
    → rebuild_loop f rest ≡ ok done
    → rebuild_loop (suc f) (s ∷ rest) ≡ ok (s ∷ done)
unfolding rebuild_loop
rebuild_plain f s rest done q e = rw (rebuild_loop, q, e) refl

open_spaceless : (w : Text) → clean (codes " \"") w ≡ true → has b' ' w ≡ false
open_spaceless [] h = refl
open_spaceless (c ∷ w) h = ground (arith, open_spaceless w)

quoted_spaceless : (w : Text) → clean (codes " \"") w ≡ true → has b' ' (w ++ b'"' ∷ []) ≡ false
quoted_spaceless [] h = refl
quoted_spaceless (c ∷ w) h = ground (arith, quoted_spaceless w)

pub rebuild-quoted :
    (f : ℕ) (w : Text) (ws rest done : List Text)
    → all is_word (w ∷ ws) ≡ true
    → rebuild_loop f rest ≡ ok done
    → rebuild_loop (suc f) (quoted w ws ++ rest) ≡ ok ((w ++ trail ws) ∷ done)
unfolding rebuild_loop
rebuild-quoted f w [] rest done h e =
    let named : clean (codes " \"") w ≡ true = ground arith in
    rw (rebuild_loop, quoted_spaceless w named)
      (rw (closing_quote_end w) (rw e (rw (strip_quote_end w, append-nil w) refl)))
rebuild-quoted f w (x ∷ xs) rest done h e =
    let named : clean (codes " \"") w ≡ true = ground arith in
    let w_word : is_word w ≡ true = ground arith in
    let words_ok : all is_word (x ∷ xs) ≡ true = ground arith in
    let gathered : collect w (closes x xs ++ rest)
        ≡ collected rest ((w ++ trail (x ∷ xs)) ++ b'"' ∷ []) =
      collect-closes w x xs rest words_ok
      ∙ ap (collected rest) (sym (append_assoc w (trail (x ∷ xs)) (b'"' ∷ []))) in
    rw (rebuild_loop, open_spaceless w named)
      (rw (closing_quote_word w w_word)
        (rw gathered (rw e (rw (strip_quote_end (w ++ trail (x ∷ xs))) refl))))

rebuild_loop_undefined :
    (f : ℕ) (xs rest : List Text)
    → all (λ x. not (first x == b'"')) xs ≡ true
    → length xs < f
    → rebuild_loop f (xs ++ codes "\"" ∷ rest) ≡ err undefined
unfolding rebuild_loop closing_quote
rebuild_loop_undefined zero xs rest h n = absurd (omega arith)
rebuild_loop_undefined (suc f) [] rest h n = refl
rebuild_loop_undefined (suc f) (x ∷ xs) rest h n =
    let open_text : (first x == b'"') ≡ false = ground arith in
    let after : rebuild_loop f (xs ++ codes "\"" ∷ rest) ≡ err undefined =
      rebuild_loop_undefined f xs rest (ground arith) (omega (arith, n)) in
    rw (rebuild_loop, open_text, after) refl

-- A lone double quote among the arguments, with no argument before it that begins with one, makes
-- rebuildWithQuotes read out of the range of a text.
pub rebuild_undefined :
    (m : Message) (xs rest : List Text)
    → m.args ≡ xs ++ codes "\"" ∷ rest
    → all (λ x. not (first x == b'"')) xs ≡ true
    → rebuild_with_quotes m ≡ err undefined
unfolding rebuild_with_quotes
rebuild_undefined m xs rest e h =
    let n : length xs < suc (length m.args) =
      omega (arith, ap length e, length-append xs (codes "\"" ∷ rest)) in
    let stopped =
      ap (rebuild_loop (suc (length m.args))) e
      ∙ rebuild_loop_undefined (suc (length m.args)) xs rest h n in
    ap (λ (r : Result (List Text)). r >>= λ xs. ok (record m { args = xs })) stopped
