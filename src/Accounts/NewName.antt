-- ===== src/Accounts/NewName.antt =====
-- The ID that getNewAccountName of src/im/purple.cpp finds for a new account.
use minbif.Prelude.{
  ℕ, zero, suc, ◌+◌, ◌%◌, ◌≤◌, ◌<◌, ◌≡◌, refl, ap, subst, ◌∙◌, inl, inr, Bool, true, false, not,
  ◌&&◌, List, [], ◌∷◌, ◌++◌, Option, none, some, Text, is_empty, text_eq, eq_of_text_eq, length,
  leb, any, arith, ◌==◌, if◌then◌else◌, Bool-cases,
}
use minbif.Result.{Result, ok}
use minbif.Accounts.{
  Ints, Protocol, Account, substr, suffix, numbered, passed_over, int_suc, next_int, scan,
  name_loop, get_new_account_name,
}

-- Printing an int from 1 on gives some text, and reading that gives the int.
pub record IsPrinted (v : Ints) : Type 0 where
  pub some_text : (n : ℕ) → suc n < 2147483648 → is_empty (v.t2s (suc n)) ≡ false
  pub reads_back : (n : ℕ) → suc n < 2147483648 → v.s2t (v.t2s (suc n)) ≡ suc n

-- An account of the protocol, other than the one that is left out, has the ID.
abbrev pub has_id : Protocol → ℕ → Text → List Account → Bool
has_id p butone id = any (λ a. not (passed_over p butone a) && text_eq a.id id)

substr-append : (s t : Text) → substr (length s) (s ++ t) ≡ t
unfolding substr
substr-append [] t = refl
substr-append (c ∷ s) t = substr-append s t

suc_nonzero : (n : ℕ) → (suc n == 0) ≡ false
suc_nonzero n = ground arith

int_suc_lem : (i : ℕ) → i < 2147483647 → int_suc i ≡ ok (suc i)
unfolding int_suc
int_suc_lem i h =
    let below : (i == 2147483647) ≡ false = ground arith in
    let whole : suc i % 4294967296 ≡ suc i = omega arith in rw below (ap (λ n. ok n) whole)

module _ (v : Ints) (w : IsPrinted v) (p : Protocol) (butone : ℕ) where
  -- the number that an ID ends with, 0 for none
  number : Text → ℕ
  number id = let r = substr (length p.proto_id) id in if is_empty r then 0 else v.s2t r

  tail : (i : ℕ) → substr (length p.proto_id) (numbered v p i) ≡ suffix v i
  unfolding numbered
  tail i = substr-append p.proto_id (suffix v i)

  suffix-suc : (n : ℕ) → suffix v (suc n) ≡ v.t2s (suc n)
  unfolding suffix
  suffix-suc n = rw (suc_nonzero n)

  read_suffix :
      (i : ℕ) → i < 2147483648 → (if is_empty (suffix v i) then 0 else v.s2t (suffix v i)) ≡ i
  unfolding suffix
  read_suffix zero h = refl
  read_suffix (suc n) h = rw (suffix-suc n) (rw (w.some_text n h) (w.reads_back n h))

  number-numbered : (i : ℕ) → i < 2147483648 → number (numbered v p i) ≡ i
  unfolding number
  number-numbered i h = ap (λ r. if is_empty r then 0 else v.s2t r) (tail i) ∙ read_suffix i h

  -- how many accounts have an ID with a number from i on
  count : ℕ → List Account → ℕ
  count i [] = 0
  count i (a ∷ accs) = let n = count i accs in if leb i (number a.id) then suc n else n

  count-le : (i : ℕ) (accs : List Account) → count (suc i) accs ≤ count i accs
  unfolding count
  count-le i [] = omega arith
  count-le i (a ∷ accs) = ground (arith, count-le i accs)

  count_bound : (i : ℕ) (accs : List Account) → count i accs ≤ length accs
  unfolding count
  count_bound i [] = omega arith
  count_bound i (a ∷ accs) = ground (arith, count_bound i accs)

  -- The number that the code goes on with behind an ID that is taken.
  next_number : (i : ℕ) → i < 2147483647 → next_int v p i (numbered v p i) ≡ ok (suc i)
  unfolding next_int
  next_number zero h = refl
  next_number (suc n) h = rw (suc_nonzero n) (
      ap (λ r. int_suc (v.s2t r)) (tail (suc n) ∙ suffix-suc n)
      ∙ ap int_suc (w.reads_back n (omega arith))
      ∙ int_suc_lem (suc n) h)

  -- An account with the ID of number i counts for i and not for the next.
  count_drops :
      (i : ℕ) (a : Account) (accs : List Account)
      → i < 2147483647
      → text_eq a.id (numbered v p i) ≡ true
      → count (suc i) (a ∷ accs) < count i (a ∷ accs)
  unfolding count
  count_drops i a accs small h =
      let n : number a.id ≡ i =
        ap number (eq_of_text_eq a.id (numbered v p i) h) ∙ number-numbered i (omega arith) in
      ground (arith, n, count-le i accs)

  -- What a round finds: no account with the ID, or one, and the next number.
  Found : ℕ → List Account → Option (Result ℕ) → Type 0
  Found i accs none = has_id p butone (numbered v p i) accs ≡ false
  Found i accs (some j) =
      (j ≡ ok (suc i))
      × (has_id p butone (numbered v p i) accs ≡ true)
      × (count (suc i) accs < count i accs)

  -- an account that is passed over, or that has another ID, changes nothing
  later-Found :
      (i : ℕ) (a : Account) (accs : List Account) (r : Option (Result ℕ))
      → (not (passed_over p butone a) && text_eq a.id (numbered v p i)) ≡ false
      → Found i accs r
      → Found i (a ∷ accs) r
  unfolding Found count
  later-Found i a accs none h f = ground (arith, f)
  later-Found i a accs (some j) h (e, t, c) = (e, ground (arith, t), ground (arith, c))

  scan-Found :
      (i : ℕ) (accs : List Account) → i < 2147483647 → Found i accs (scan v p butone i accs)
  unfolding scan Found
  scan-Found i [] small = refl
  scan-Found i (a ∷ accs) small =
      choose (passed_over p butone a) refl (text_eq a.id (numbered v p i)) refl
        (scan-Found i accs small)
    where
      choose :
          (b : Bool)
          → passed_over p butone a ≡ b
          → (c : Bool) → text_eq a.id (numbered v p i) ≡ c
          → Found i accs (scan v p butone i accs)
          → Found i (a ∷ accs) (
              if b
              then scan v p butone i accs
              else if c
              then some (next_int v p i a.id)
              else scan v p butone i accs)
      choose true e c k f = later-Found i a accs (scan v p butone i accs) (ground arith) f
      choose false e false k f = later-Found i a accs (scan v p butone i accs) (ground arith) f
      choose false e true k f = (
        ap (next_int v p i) (eq_of_text_eq a.id (numbered v p i) k) ∙ next_number i small,
        ground arith,
        count_drops i a accs small k,
      )

  abbrev taken : List Account → ℕ → Bool
  taken accs n = has_id p butone (numbered v p n) accs

  abbrev Ends : List Account → ℕ → ℕ → Type 0
  Ends accs i fuel =
      (n : ℕ) × (name_loop v p butone accs fuel i ≡ ok (numbered v p n))
      × (i ≤ n)
      × (taken accs n ≡ false)
      × ((j : ℕ) → i ≤ j → j < n → taken accs j ≡ true)

  after_taken :
      (accs : List Account) (i n : ℕ)
      → taken accs i ≡ true
      → ((j : ℕ) → suc i ≤ j → j < n → taken accs j ≡ true)
      → (j : ℕ) → i ≤ j
      → j < n
      → taken accs j ≡ true
  after_taken accs i n t h j le lt = elim (Bool-cases (i == j)) [
    | inl e ↦ let same : i ≡ j = ground arith in subst (λ k. taken accs k ≡ true) same t
    | inr e ↦ h j (ground arith) lt
  ]

  name_loop_round :
      (accs : List Account) (fuel i : ℕ) (o : Option (Result ℕ))
      → scan v p butone i accs ≡ o
      → Found i accs o
      → (count (suc i) accs < count i accs → Ends accs (suc i) fuel)
      → Ends accs i (suc fuel)
  unfolding Found name_loop
  name_loop_round accs fuel i none e f more =
      (i, rw (name_loop, e) refl, omega arith, f, λ j le lt. absurd (omega arith))
  name_loop_round accs fuel i (some j) e (s, t, c) more =
      let (n, r, le, free, below) = more c in
      (n, rw (name_loop, e, s) r, omega arith, free, after_taken accs i n t below)

  name_loop_lem :
      (accs : List Account) (fuel i : ℕ)
      → i + fuel ≤ 2147483647
      → count i accs < fuel
      → Ends accs i fuel
  name_loop_lem accs zero i small h = absurd (omega arith)
  name_loop_lem accs (suc fuel) i small h =
      name_loop_round accs fuel i (scan v p butone i accs) refl (scan-Found i accs (omega arith))
        λ c. name_loop_lem accs fuel (suc i) (omega arith) (omega arith)

-- When printed ints are read back, and there are less than 2 ^ 31 - 1 accounts, getNewAccountName ends,
-- with no overflow of its int, and gives the first of proto, proto1, proto2 and so on that no other
-- account of the protocol has for its ID.
pub get_new_account_name-has_id :
    (v : Ints) (w : IsPrinted v) (p : Protocol) (butone : ℕ) (accs : List Account)
    → length accs < 2147483647
    → (n : ℕ) × (get_new_account_name v p butone accs ≡ ok (numbered v p n))
      × (has_id p butone (numbered v p n) accs ≡ false)
      × ((j : ℕ) → j < n → has_id p butone (numbered v p j) accs ≡ true)
unfolding get_new_account_name
get_new_account_name-has_id v w p butone accs small =
    let (n, e, le, free, below) =
      name_loop_lem v w p butone accs (suc (length accs)) 0 (omega arith)
        (omega (arith, count_bound v w p butone 0 accs)) in
    (n, e, free, λ j lt. below j (omega arith) lt)
