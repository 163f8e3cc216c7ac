-- ===== src/Dcc/RoundTrip.antt =====
-- An offer of src/irc/dcc.cpp, written and read.
use minbif.Prelude.{
  ℕ, suc, ◌+◌, ◌-◌, ◌≡◌, refl, ap, sym, ◌∙◌, true, false, not, List, [], ◌∷◌, ◌++◌, append_assoc,
  append-nil, Option, some, Text, codes, first, last?-append, has, all, all-append, mem, length,
  take, ◌==◌, arith,
}
use minbif.Result.{Result, ok, ◌>>=◌}
use minbif.Token.{tokens}
use minbif.Token.Words.{clean, tokens-words}
use minbif.Message.{Message, message, add_arg, spaced_back}
use minbif.Message.RoundTrip.{spaced_back-append}
use minbif.Message.Quotes.{rebuild_loop, rebuild_with_quotes}
use minbif.Irc.{add_args}
use minbif.Dcc.Quoting.{
  is_word, trail, closes, is_token, quoted, words-trail, trail-quoted, trail-append, rebuild_plain,
  rebuild-quoted, length-snoc, take_front,
}
use minbif.Dcc.Offer.{Numbers, Offer, offer_text, offer_of, parse_dcc_send}

-- The arguments are tokens.
clean-spaceless : (w : Text) → clean (codes " \"") w ≡ true → clean (codes " ") w ≡ true
clean-spaceless [] h = refl
clean-spaceless (c ∷ w) h = ground (arith, clean-spaceless w)

token_of_word : (w : Text) → is_word w ≡ true → is_token w ≡ true
token_of_word w h = ground (arith, clean-spaceless w)

closed_token : (w : Text) → is_word w ≡ true → is_token (w ++ b'"' ∷ []) ≡ true
closed_token [] h = absurd (ground arith)
closed_token (c ∷ w) h =
    let front : clean (codes " ") (c ∷ w) ≡ true = clean-spaceless (c ∷ w) (ground arith) in
    all-append (λ x. not (mem x (codes " "))) (c ∷ w) (b'"' ∷ []) ∙ ground (arith, front)

closes_tokens :
    (w : Text) (ws : List Text) → all is_word (w ∷ ws) ≡ true → all is_token (closes w ws) ≡ true
closes_tokens w [] h =
    let k : is_token (w ++ b'"' ∷ []) ≡ true = closed_token w (ground arith) in ground (arith, k)
closes_tokens w (x ∷ xs) h = ground (arith, token_of_word w, closes_tokens x xs)

quoted_tokens :
    (w : Text) (ws : List Text) → all is_word (w ∷ ws) ≡ true → all is_token (quoted w ws) ≡ true
quoted_tokens w [] h =
    let k : is_token (w ++ b'"' ∷ []) ≡ true = closed_token w (ground arith) in ground (arith, k)
quoted_tokens w (x ∷ xs) h = ground (arith, token_of_word w, closes_tokens x xs)

clean_free : (w : Text) → clean (codes " ") w ≡ true → has b' ' w ≡ false
clean_free [] h = refl
clean_free (c ∷ w) h = ground (arith, clean_free w)

add_args_tokens :
    (xs : List Text) (m : Message)
    → spaced_back m.args ≡ false
    → all is_token xs ≡ true
    → add_args xs m ≡ ok (record m { args = m.args ++ xs })
unfolding add_args add_arg
add_args_tokens [] m b h = ap (λ xs. ok (record m { args = xs })) (sym (append-nil m.args))
add_args_tokens (x ∷ xs) m b h =
    let x_free : has b' ' x ≡ false = clean_free x (ground arith) in
    let rest : all is_token xs ≡ true = ground arith in
    let more = record m { args = m.args ++ x ∷ [] } in
    rw b (
      add_args_tokens xs more (spaced_back-append m.args x ∙ x_free) rest
      ∙ ap (λ ys. ok (record m { args = ys })) (append_assoc m.args (x ∷ []) xs))

length-closes :
    (w : Text) (ws nums : List Text) → length (closes w ws ++ nums) ≡ suc (length ws + length nums)
length-closes w [] nums = omega arith
length-closes w (x ∷ xs) nums = omega (arith, length-closes x xs nums)

length-quoted :
    (w : Text) (ws : List Text) (nums : List Text)
    → length (quoted w ws ++ nums) ≡ suc (length ws + length nums)
length-quoted w [] nums = omega arith
length-quoted w (x ∷ xs) nums = omega (arith, length-closes x xs nums)

first_word : (w : Text) → is_word w ≡ true → (first w == b'"') ≡ false
first_word [] h = refl
first_word (c ∷ w) h = ground arith

rebuild_nums :
    (k : ℕ) (a p z : Text)
    → all is_word (a ∷ p ∷ z ∷ []) ≡ true
    → rebuild_loop (suc (k + 3)) (a ∷ p ∷ z ∷ []) ≡ ok (a ∷ p ∷ z ∷ [])
unfolding rebuild_loop
rebuild_nums k a p z h =
    let four : k + 3 ≡ suc (suc (suc k)) = omega arith in
    ap (λ f. rebuild_loop (suc f) (a ∷ p ∷ z ∷ [])) four
    ∙ rebuild_plain (suc (suc (suc k))) a (p ∷ z ∷ []) (p ∷ z ∷ []) (first_word a (ground arith)) (
        rebuild_plain (suc (suc k)) p (z ∷ []) (z ∷ []) (first_word p (ground arith))
          (rebuild_plain (suc k) z [] [] (first_word z (ground arith)) refl))

-- a text between two bytes 1
parse_framed :
    (v : Numbers) (b : Text) (m m' : Message)
    → add_args (tokens (codes " ") b) (message []) ≡ ok m
    → rebuild_with_quotes m ≡ ok m'
    → parse_dcc_send v (1 ∷ (b ++ 1 ∷ [])) ≡ ok (offer_of v m'.args)
unfolding parse_dcc_send
parse_framed v b m m' e r =
    let inner : take (length (1 ∷ (b ++ 1 ∷ [])) - 2) (b ++ 1 ∷ []) ≡ b =
      ap (λ n. take n (b ++ 1 ∷ [])) (omega (arith, length-snoc b 1)) ∙ take_front b 1 in
    rw (parse_dcc_send, last?-append (1 ∷ b) 1) (rw inner (rw e (rw r refl)))

abbrev found : Text → ℕ → ℕ → ℕ → Result (Option Offer)
found f a p z = ok (some (record { filename = f; addr = a; port = p; size = z }))

-- What an offer's numbers rely on: they are printed as words, and read back.
pub record IsPrinted (v : Numbers) (o : Offer) : Type 0 where
  pub words_ok : all is_word (v.t2s o.addr ∷ v.t2s o.port ∷ v.t2s o.size ∷ []) ≡ true
  pub addr_eq : v.to_addr (v.t2s o.addr) ≡ o.addr
  pub port_eq : v.to_port (v.t2s o.port) ≡ o.port
  pub size_eq : v.to_size (v.t2s o.size) ≡ o.size

module _ (v : Numbers) (o : Offer) (w : Text) (ws : List Text) where
  abbrev nums : List Text
  nums = v.t2s o.addr ∷ v.t2s o.port ∷ v.t2s o.size ∷ []

  abbrev args : List Text
  args = codes "SEND" ∷ (quoted w ws ++ nums)

  abbrev body : Text
  body = codes "DCC" ++ trail args

  offer_text-body :
      o.filename ≡ w ++ trail ws → (o.size == 0) ≡ false → offer_text v o ≡ 1 ∷ (body ++ 1 ∷ [])
  unfolding offer_text
  offer_text-body n z = rw (n, z) (simp (trail-append, trail-quoted, append_assoc, append-nil))

  args_tokens :
      all is_word (w ∷ ws) ≡ true → IsPrinted v o → all is_token (codes "DCC" ∷ args) ≡ true
  args_tokens h p =
      let front = quoted_tokens w ws h in
      let k = p.words_ok in
      all-append is_token (quoted w ws) nums
      ∙ ground (
        arith,
        front,
        k,
        token_of_word (v.t2s o.addr),
        token_of_word (v.t2s o.port),
        token_of_word (v.t2s o.size),
      )

  rebuilt :
      all is_word (w ∷ ws) ≡ true
      → IsPrinted v o
      → rebuild_loop (suc (length (codes "DCC" ∷ args))) (codes "DCC" ∷ args)
        ≡ ok (codes "DCC" ∷ codes "SEND" ∷ (w ++ trail ws) ∷ nums)
  rebuilt h p =
      let k = p.words_ok in
      let kept = rebuild_nums (length ws) (v.t2s o.addr) (v.t2s o.port) (v.t2s o.size) k in
      let enough : rebuild_loop (length (quoted w ws ++ nums)) nums ≡ ok nums =
        ap (λ f. rebuild_loop f nums) (length-quoted w ws nums) ∙ kept in
      rebuild_plain _ (codes "DCC") args _ refl (
        rebuild_plain _ (codes "SEND") (quoted w ws ++ nums) _ refl
          (rebuild-quoted (length (quoted w ws ++ nums)) w ws nums nums h enough))

  -- An offer of a file whose name is words with one space between them, none of them with a double
  -- quote, and whose size is not 0, is read back as it was written.
  pub parse-offer_text :
      o.filename ≡ w ++ trail ws
      → all is_word (w ∷ ws) ≡ true
      → (o.size == 0) ≡ false
      → IsPrinted v o
      → parse_dcc_send v (offer_text v o) ≡ ok (some o)
  unfolding rebuild_with_quotes offer_of spaced_back
  parse-offer_text n h z p =
      let given = record (message []) { args = codes "DCC" ∷ args } in
      let read_back = record (message []) {
        args = codes "DCC" ∷ codes "SEND" ∷ (w ++ trail ws) ∷ nums;
      } in
      let split : add_args (tokens (codes " ") body) (message []) ≡ ok given =
        ap (λ xs. add_args xs (message []))
          (tokens-words (codes " ") body ∙ words-trail (codes "DCC") args (args_tokens h p))
        ∙ add_args_tokens (codes "DCC" ∷ args) (message []) refl (args_tokens h p) in
      let quotes : rebuild_with_quotes given ≡ ok read_back =
        ap (λ (r : Result (List Text)). r >>= λ xs. ok (record given { args = xs }))
          (rebuilt h p) in
      ap (parse_dcc_send v) (offer_text-body n z)
      ∙ parse_framed v body given read_back split quotes
      ∙ ap (λ x. found (w ++ trail ws) x (v.to_port (v.t2s o.port)) (v.to_size (v.t2s o.size)))
          p.addr_eq
      ∙ ap (λ x. found (w ++ trail ws) o.addr x (v.to_size (v.t2s o.size))) p.port_eq
      ∙ ap (found (w ++ trail ws) o.addr o.port) p.size_eq
      ∙ ap (λ f. found f o.addr o.port o.size) (sym n)
