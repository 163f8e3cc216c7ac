-- ===== src/Chat/Privmsg.antt =====
-- PRIVMSG with several targets (src/irc/cmds_channels.cpp).
use minbif.Prelude.{
  ℕ, zero, suc, ◌≡◌, refl, ap, sym, ◌∙◌, append_assoc, append-nil, false, List, [], ◌∷◌, ◌++◌, some,
  Text, codes, has, if◌then◌else◌,
}
use minbif.Result.{ok, err, malformed}
use minbif.Message.{Message, message, add_arg, get_arg, set_sender, set_receiver, spaced_back}
use minbif.Token.{tokens}
use minbif.Registry.{get_nick}
use minbif.Network.{send, nick_entity}
use minbif.Chat.{Chat, Peers, is_chan_name, privmsg_loop, m_privmsg}

-- The names are those of nicks that are not away, in order.
abbrev pub Named : Peers → Chat → List Text → List ℕ → Type 0
Named v s [] [] = Unit
Named v s (t ∷ ts) (n ∷ ns) =
    (is_chan_name t ≡ false)
    × (get_nick t false s.registry ≡ some n)
    × (v.is_away n ≡ false)
    × Named v s ts ns
Named v s _ _ = ⊥

-- as many copies of the text
abbrev pub copies : ℕ → Text → List Text
copies zero text = []
copies (suc k) text = text ∷ copies k text

-- What each nick is sent, when k messages went before.
abbrev pub relayed : Text → Text → Chat → ℕ → List ℕ → List (ℕ × Message)
relayed cmd text s k [] = []
relayed cmd text s k (n ∷ ns) =
    (
      n,
      record (set_receiver (nick_entity n s.net)
          (set_sender (nick_entity s.user s.net) (message cmd))) { args = copies (suc k) text },
    )
    ∷ relayed cmd text s (suc k) ns

copies_last : (k : ℕ) (text : Text) → copies k text ++ text ∷ [] ≡ copies (suc k) text
copies_last zero text = refl
copies_last (suc k) text = ap (◌∷◌ text) (copies_last k text)

copies_spaceless :
    (k : ℕ) (text : Text) → has b' ' text ≡ false → spaced_back (copies k text) ≡ false
unfolding spaced_back
copies_spaceless zero text h = refl
copies_spaceless (suc zero) text h = h
copies_spaceless (suc (suc k)) text h = copies_spaceless (suc k) text h

-- one round of the loop for a nick
privmsg_round :
    (v : Peers) (text t : Text) (ts : List Text) (n : ℕ) (m m' : Message) (s : Chat)
    → add_arg text (set_sender (nick_entity s.user s.net) m) ≡ ok m'
    → is_chan_name t ≡ false
    → get_nick t false s.registry ≡ some n
    → v.is_away n ≡ false
    → privmsg_loop v text (t ∷ ts) m s
      ≡ privmsg_loop v text ts
          (set_receiver (nick_entity n s.net) m')
          (record s { net = send n (set_receiver (nick_entity n s.net) m') s.net })
unfolding privmsg_loop
privmsg_round v text t ts n m m' s e c g w = rw (privmsg_loop, e) (rw c (rw g (rw w refl)))

-- the message with one copy more
more : ℕ → Text → Message → Chat → Message
more k text m s = record (set_sender (nick_entity s.user s.net) m) { args = copies (suc k) text }

add_arg-more :
    (k : ℕ) (text : Text) (m : Message) (s : Chat)
    → has b' ' text ≡ false
    → m.args ≡ copies k text
    → add_arg text (set_sender (nick_entity s.user s.net) m) ≡ ok (more k text m s)
unfolding add_arg more
add_arg-more k text m s h a =
    let short : spaced_back m.args ≡ false = ap spaced_back a ∙ copies_spaceless k text h in
    ap
      (λ b.
        if b
        then err malformed
        else ok (record (set_sender (nick_entity s.user s.net) m) { args = m.args ++ text ∷ [] }))
      short
    ∙ ap (λ xs. ok (record (set_sender (nick_entity s.user s.net) m) { args = xs }))
        (ap (λ xs. xs ++ text ∷ []) a ∙ copies_last k text)

privmsg_loop_lem :
    (v : Peers) (text : Text) (ts : List Text) (ns : List ℕ) (k : ℕ) (m : Message) (s : Chat)
    → has b' ' text ≡ false
    → Named v s ts ns
    → m.args ≡ copies k text
    → privmsg_loop v text ts m s
      ≡ ok (record s { net = record s.net { sent = s.net.sent ++ relayed m.cmd text s k ns } })
unfolding send more
privmsg_loop_lem v text [] [] k m s h w a =
    unfold privmsg_loop in
    ap (λ xs. ok (record s { net = record s.net { sent = xs } })) (sym (append-nil s.net.sent))
privmsg_loop_lem v text [] (n ∷ ns) k m s h w a = elim w [ ]
privmsg_loop_lem v text (t ∷ ts) [] k m s h w a = elim w [ ]
privmsg_loop_lem v text (t ∷ ts) (n ∷ ns) k m s h (chan, found, here, w) a =
    let m' = set_receiver (nick_entity n s.net) (more k text m s) in
    let s' = record s { net = send n m' s.net } in
    privmsg_round v text t ts n m (more k text m s) s (add_arg-more k text m s h a) chan found here
    ∙ privmsg_loop_lem v text ts ns (suc k) m' s' h w refl
    ∙ ap (λ xs. ok (record s { net = record s.net { sent = xs } }))
        (append_assoc s.net.sent ((n, m') ∷ []) (relayed m.cmd text s (suc k) ns))

m_privmsg_lem :
    (v : Peers) (m : Message) (targets text : Text) (rest : List Text) (s : Chat)
    → m.args ≡ targets ∷ text ∷ rest
    → m_privmsg v m s ≡ privmsg_loop v text (tokens (codes ",") targets) (message m.cmd) s
unfolding m_privmsg get_arg
m_privmsg_lem v m targets text rest s a = ap (λ xs. m_privmsg v (record m { args = xs }) s) a

-- When all targets are nicks that are there and not away, and the text has no space, the k-th nick is
-- sent the text k times over, as k arguments of one message, and nothing else is sent.
pub m_privmsg-copies :
    (v : Peers) (m : Message) (targets text : Text) (rest : List Text) (ns : List ℕ) (s : Chat)
    → m.args ≡ targets ∷ text ∷ rest
    → Named v s (tokens (codes ",") targets) ns
    → has b' ' text ≡ false
    → m_privmsg v m s
      ≡ ok (record s { net = record s.net { sent = s.net.sent ++ relayed m.cmd text s 0 ns } })
m_privmsg-copies v m targets text rest ns s a w h =
    m_privmsg_lem v m targets text rest s a
    ∙ (privmsg_loop_lem v text (tokens (codes ",") targets) ns 0 (message m.cmd) s h w refl)
