-- ===== src/Ipc/Delivery.antt =====
-- A message between two processes of src/server_poll/daemon_fork.cpp, as `ipc_read` gets it.
use minbif.Prelude.{
  ℕ, zero, suc, ◌+◌, ◌-◌, ◌≤◌, ◌≡◌, refl, ap, sym, ◌∙◌, true, false, [], ◌∷◌, ◌++◌, Option, none,
  some, Text, codes, has, append-nil, append_assoc, List, Bool, not, ◌&&◌, ◌==◌, if◌then◌else◌,
  take, length, arith,
}
use minbif.Result.{Result, ok, ◌>>=◌}
use minbif.Token.Words.{clean}
use minbif.Message.{Message, format}
use minbif.Message.Stream.{IsWire, line, format-line, line-clean, parse-line}
use minbif.Ipc.{Child, Poll, Os, bytes, line_of, drop, dispatch, ipc_read}

line_of_lem :
    (l tail : Text)
    → clean (codes "\r\n") l ≡ true
    → has 0 l ≡ false
    → line_of (l ++ b'\r' ∷ b'\n' ∷ tail) ≡ some l
unfolding line_of
line_of_lem [] tail c z = refl
line_of_lem (x ∷ l) tail c z = ground (arith, line_of_lem l tail)

take-append :
    (n : ℕ) (xs ys : Text) → length xs ≤ n → take n (xs ++ ys) ≡ xs ++ take (n - length xs) ys
take-append n [] ys h = ap (λ k. take k ys) (omega arith)
take-append zero (x ∷ xs) ys h = absurd (omega arith)
take-append (suc n) (x ∷ xs) ys h =
    ap (◌∷◌ x) (take-append n xs ys (omega arith) ∙ ap (λ k. xs ++ take k ys) (omega arith))

drop-append : (l : Text) (x y : ℕ) (rest : Text) → drop (length l + 2) (l ++ x ∷ y ∷ rest) ≡ rest
unfolding drop
drop-append [] x y rest = refl
drop-append (c ∷ l) x y rest =
    let one : suc (length l) + 2 ≡ suc (length l + 2) = omega arith in
    ap (λ k. drop k (c ∷ (l ++ x ∷ y ∷ rest))) one ∙ drop-append l x y rest

has-front : (k : ℕ) (xs ys : Text) → has k (xs ++ ys) ≡ false → has k xs ≡ false
has-front k [] ys h = refl
has-front k (x ∷ xs) ys h = ground (arith, has-front k xs ys)

-- A message arrives as it was sent if it fits in the buffer, has no zero byte and no line end, no sender
-- and no receiver, a command in upper case that is not empty and has no space, and arguments of which
-- none is empty, none but the last has a space or begins with a colon, and the last, if it has a space,
-- has something behind the first one: whatever bytes follow it, ipc_read hands it to its handler, keeps
-- the callback, and takes no byte of what follows.
pub ipc_read-format :
    (os : Os) (child : Option Child) (m : Message) (rest : Text) (p : Poll) (w : IsWire m)
    → length (format m) ≤ 511
    → has 0 (format m) ≡ false
    → ipc_read os child (bytes (format m ++ rest)) p
      ≡ (dispatch os child (line m w) m p >>= λ after. ok (true, rest, after))
unfolding ipc_read dispatch
ipc_read-format os child m rest p w n z =
    let l = line m w in
    let clean_of_zero : has 0 l ≡ false =
      has-front 0 l (b'\r' ∷ b'\n' ∷ [])
        (ap (has 0) (sym (format-line m w []) ∙ append-nil (format m)) ∙ z) in
    let seen : line_of (take 511 (format m ++ rest)) ≡ some l =
      ap line_of
        (take-append 511 (format m) rest n ∙ format-line m w (take (511 - length (format m)) rest))
      ∙ line_of_lem l (take (511 - length (format m)) rest) (line-clean m w) clean_of_zero in
    let taken : drop (length l + 2) (format m ++ rest) ≡ rest =
      ap (drop (length l + 2)) (format-line m w rest) ∙ drop-append l b'\r' b'\n' rest in
    rw (ipc_read, seen, parse-line m w, taken) refl

-- No CR has an LF right behind it.
unfoldable pub has_no_end : Text → Bool
has_no_end [] = true
has_no_end (x ∷ []) = true
has_no_end (x ∷ y ∷ l) = not (x == 13 && y == 10) && has_no_end (y ∷ l)

line_of-none : (l : Text) → has_no_end l ≡ true → line_of l ≡ none
unfolding line_of has_no_end
line_of-none [] c = refl
line_of-none (x ∷ []) c = ground arith
line_of-none (x ∷ y ∷ l) c = ground (arith, line_of-none (y ∷ l))

-- ipc_read again and again, with the bytes that come before each time
unfoldable pub read_all : Os → Option Child → Text → List Text → Poll → Result (Bool × Text × Poll)
unfolding ipc_read
read_all os child queue [] p = ok (true, queue, p)
read_all os child queue (b ∷ bs) p = do
  (going, queue, p) ← ipc_read os child (bytes (queue ++ b)) p
  if going then read_all os child queue bs p else ok (false, queue, p)

stalled_once :
    (os : Os) (child : Option Child) (l rest : Text) (p : Poll)
    → length l ≡ 511
    → has_no_end l ≡ true
    → ipc_read os child (bytes (l ++ rest)) p ≡ ok (true, l ++ rest, p)
unfolding ipc_read
stalled_once os child l rest p n c =
    let none_left : 511 - length l ≡ 0 = omega (arith, n) in
    let peeked : take 511 (l ++ rest) ≡ l =
      take-append 511 l rest (omega (arith, n))
      ∙ ap (λ k. l ++ take k rest) none_left
      ∙ append-nil l in
    rw (ipc_read, ap line_of peeked ∙ line_of-none l c) refl

unfoldable pub concat : List Text → Text
concat [] = []
concat (b ∷ bs) = b ++ concat bs

-- When no CR with an LF behind it stands in the first 511 bytes that wait, ipc_read takes nothing and
-- changes nothing, whatever bytes follow and however often it is called with more: all that comes
-- waits, and no message in it is handled.
pub ipc_read_stalls :
    (os : Os) (child : Option Child) (l rest : Text) (bs : List Text) (p : Poll)
    → length l ≡ 511
    → has_no_end l ≡ true
    → read_all os child (l ++ rest) bs p ≡ ok (true, l ++ (rest ++ concat bs), p)
unfolding read_all concat
ipc_read_stalls os child l rest [] p n c = ap (λ r. ok (true, l ++ r, p)) (sym (append-nil rest))
ipc_read_stalls os child l rest (b ∷ bs) p n c =
    let next : Bool × Text × Poll → Result (Bool × Text × Poll) =
      λ x. if x.0 then read_all os child x.1 bs x.2 else ok (false, x.1, x.2) in
    ap (λ q. ipc_read os child (bytes q) p >>= next) (append_assoc l rest b)
    ∙ ap (λ r. r >>= next) (stalled_once os child l (rest ++ b) p n c)
    ∙ ipc_read_stalls os child l (rest ++ b) bs p n c
    ∙ ap (λ r. ok (true, l ++ r, p)) (append_assoc rest b (concat bs))
