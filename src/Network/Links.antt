-- ===== src/Network/Links.antt =====
-- The pointers between nicks, channels and `ChanUser` objects (src/irc/nick.h, src/irc/channel.h).
use minbif.Prelude.{
  ℕ, suc, ◌≤◌, ◌≡◌, refl, ◌∙◌, Bool, true, false, not, ◌&&◌, ◌||◌, List, [], ◌∷◌, ◌++◌, Option,
  none, some, arith, mem, any-append, ◌==◌, if◌then◌else◌,
}
use minbif.Network.{ChanUser, LinkState}

abbrev pub nodup : List ℕ → Bool
nodup [] = true
nodup (x ∷ xs) = not (mem x xs) && nodup xs

abbrev pub on_chan : ℕ → Option ChanUser → Bool
on_chan c none = false
on_chan c (some cu) = cu.chan == c

abbrev pub on_nick : ℕ → Option ChanUser → Bool
on_nick n none = false
on_nick n (some cu) = cu.nick == n

-- No pointer dangles, a channel lists exactly the live objects of the channel and a nick exactly
-- those of the nick, each once, and a nick is on a channel by one object only.
pub record IsLinked (l : LinkState) : Type 0 where
  pub users_eq : (p c : ℕ) → mem p (l.users c) ≡ on_chan c (l.heap p)
  pub channels_eq : (p n : ℕ) → mem p (l.channels n) ≡ on_nick n (l.heap p)
  pub unique :
      (p q : ℕ) (a b : ChanUser)
      → l.heap p ≡ some a
      → l.heap q ≡ some b
      → a.chan ≡ b.chan
      → a.nick ≡ b.nick
      → p ≡ q
  pub fresh : (p : ℕ) → l.next ≤ p → l.heap p ≡ none
  pub users_nodup : (c : ℕ) → nodup (l.users c) ≡ true
  pub channels_nodup : (n : ℕ) → nodup (l.channels n) ≡ true

-- The object p is gone, and every list has lost it.
pub record Unlinked (p : ℕ) (l l' : LinkState) : Type 0 where
  pub heap_eq : (q : ℕ) → l'.heap q ≡ (if p == q then none else l.heap q)
  pub next_eq : l'.next ≡ l.next
  pub users_eq : (q c : ℕ) → mem q (l'.users c) ≡ (mem q (l.users c) && not (p == q))
  pub channels_eq : (q n : ℕ) → mem q (l'.channels n) ≡ (mem q (l.channels n) && not (p == q))
  pub users_nodup : (c : ℕ) → nodup (l'.users c) ≡ true
  pub channels_nodup : (n : ℕ) → nodup (l'.channels n) ≡ true

pub Unlinked-IsLinked : {p : ℕ} {l l' : LinkState} → IsLinked l → Unlinked p l l' → IsLinked l'
Unlinked-IsLinked {p} {l} {l'} v u = record {
  users_eq = λ q c. ground (arith, u.users_eq q c, u.heap_eq q, v.users_eq q c);
  channels_eq = λ q n. ground (arith, u.channels_eq q n, u.heap_eq q, v.channels_eq q n);
  unique = λ q r a b hq hr ec en. ground (arith, u.heap_eq q, u.heap_eq r, v.unique q r a b);
  fresh = λ q h. ground (arith, u.heap_eq q, u.next_eq, v.fresh q);
  users_nodup = u.users_nodup;
  channels_nodup = u.channels_nodup;
}

-- The object p is new, on channel c for nick n, and is listed last there.
pub record Linked (p n c : ℕ) (l l' : LinkState) : Type 0 where
  pub made : ChanUser
  pub made_nick : made.nick ≡ n
  pub made_chan : made.chan ≡ c
  pub heap_eq : (q : ℕ) → l'.heap q ≡ (if p == q then some made else l.heap q)
  pub next_eq : l'.next ≡ suc l.next
  pub new : p ≡ l.next
  pub users_eq : (d : ℕ) → l'.users d ≡ (if c == d then l.users c ++ p ∷ [] else l.users d)
  pub channels_eq :
      (m : ℕ) → l'.channels m ≡ (if n == m then l.channels n ++ p ∷ [] else l.channels m)

nodup-append :
    (xs : List ℕ) (p : ℕ) → nodup xs ≡ true → mem p xs ≡ false → nodup (xs ++ p ∷ []) ≡ true
nodup-append [] p h e = refl
nodup-append (x ∷ xs) p h e =
    ground (arith, nodup-append xs p, any-append (λ (y : ℕ). y == x) xs (p ∷ []))

mem-append : (q : ℕ) (xs : List ℕ) (p : ℕ) → mem q (xs ++ p ∷ []) ≡ (mem q xs || p == q)
mem-append q xs p = any-append (λ (y : ℕ). y == q) xs (p ∷ []) ∙ ground arith

module _ {p n c : ℕ} {l l' : LinkState} (v : IsLinked l) (k : Linked p n c l l') where
  blank : l.heap p ≡ none
  blank = v.fresh p (omega (arith, k.new))

  pub Linked-IsLinked :
      ((q : ℕ) (a : ChanUser) → l.heap q ≡ some a → a.chan ≡ c → a.nick ≡ n → ⊥) → IsLinked l'
  Linked-IsLinked off = record {
    users_eq = λ q d. ground (
      arith,
      k.users_eq d,
      k.heap_eq q,
      k.made_chan,
      blank,
      v.users_eq q d,
      v.users_eq q c,
      mem-append q (l.users c) p,
    );
    channels_eq = λ q m. ground (
      arith,
      k.channels_eq m,
      k.heap_eq q,
      k.made_nick,
      blank,
      v.channels_eq q m,
      v.channels_eq q n,
      mem-append q (l.channels n) p,
    );
    unique = λ q r a b hq hr ec en. ground (
      arith,
      k.heap_eq q,
      k.heap_eq r,
      k.made_nick,
      k.made_chan,
      v.unique q r a b,
      off q a,
      off r b,
    );
    fresh = λ q h. ground (arith, k.heap_eq q, k.next_eq, k.new, v.fresh q);
    users_nodup = λ d. ground (
      arith,
      k.users_eq d,
      blank,
      v.users_eq p c,
      v.users_nodup d,
      v.users_nodup c,
      nodup-append (l.users c) p,
    );
    channels_nodup = λ m. ground (
      arith,
      k.channels_eq m,
      blank,
      v.channels_eq p n,
      v.channels_nodup m,
      v.channels_nodup n,
      nodup-append (l.channels n) p,
    );
  }
