-- ===== src/Irc/Ping.antt =====
-- `ping` of src/irc/irc.cpp, PONG of src/irc/cmds.cpp, and what a closed session sends.
use minbif.Prelude.{
  ℕ, ◌+◌, ◌≤◌, ◌≡◌, refl, ap, sym, subst, ◌∙◌, true, false, not, ◌&&◌, ◌||◌, codes, ◌==◌, arith,
  ltb,
}
use minbif.Result.{Result, ok, err, ◌>>=◌}
use minbif.Bits.{Bits, bit, single, bit-or, bit-minus, bit-single}
use minbif.Message.{Message, message, add_arg}
use minbif.Irc.{
  Server, Session, registered, ping_flag, send, has_flag, set_flag, del_flag, quit, ping,
}

flags-send : (m : Message) (s : Session) → (send m s).flags ≡ s.flags
unfolding send
flags-send m s = ground arith

last_read-send : (m : Message) (s : Session) → (send m s).last_read ≡ s.last_read
unfolding send
last_read-send m s = ground arith

has_flag-set_flag : (k j : ℕ) (s : Session) → has_flag j (set_flag k s) ≡ (has_flag j s || k == j)
unfolding has_flag set_flag
has_flag-set_flag k j s = bit-or s.flags (single k) j ∙ ground (arith, bit-single k j)

pub has_flag-del_flag :
    (k j : ℕ) (s : Session) → has_flag j (del_flag k s) ≡ (has_flag j s && not (k == j))
unfolding has_flag del_flag
has_flag-del_flag k j s = bit-minus s.flags (single k) j ∙ ground (arith, bit-single k j)

-- what a first ping leaves
pinged : (v : Server) (m : Message) (s : Session) → Session
pinged v m s = send m (set_flag ping_flag s)

abbrev Pinged : Session → Session → Type 0
Pinged s s' = (has_flag ping_flag s' ≡ true) × (s'.last_read ≡ s.last_read)

Pinged-pinged : (v : Server) (m : Message) (s : Session) → Pinged s (pinged v m s)
unfolding pinged has_flag
Pinged-pinged v m s = (
  ap (λ (b : Bits). bit b ping_flag) (flags-send m (set_flag ping_flag s))
      ∙ has_flag-set_flag ping_flag ping_flag s
      ∙ ground arith,
  last_read-send m (set_flag ping_flag s) ∙ (unfold set_flag in refl),
)

-- a ping that is due and finds no other waiting
first_ping :
    (v : Server) (now : ℕ) (s s' : Session)
    → ltb now (s.last_read + v.ping_freq) ≡ false
    → has_flag registered s ≡ true
    → has_flag ping_flag s ≡ false
    → ping v now s ≡ ok s'
    → Pinged s s'
unfolding ping
first_ping v now s s' due r p e = go (add_arg v.name (message (codes "PING"))) (sym step ∙ e)
  where
    step : ping v now s ≡ (add_arg v.name (message (codes "PING")) >>= λ m. ok (pinged v m s))
    step = unfold pinged in rw (ping, due, r, p)

    go : (q : Result Message) → (q >>= λ m. ok (pinged v m s)) ≡ ok s' → Pinged s s'
    go (ok m) h = subst (Pinged s) (ground arith) (Pinged-pinged v m s)
    go (err x) h = absurd (cc)

-- a ping that is due and finds another waiting
second_ping :
    (v : Server) (now : ℕ) (s : Session)
    → ltb now (s.last_read + v.ping_freq) ≡ false
    → has_flag ping_flag s ≡ true
    → ping v now s ≡ quit (codes "Ping timeout") s
unfolding ping
second_ping v now s due p = rw (ping, due, p) (ground arith)

-- When a ping is due and is sent to a registered user, and nothing is read by the time of the next
-- call, that call quits with a ping timeout.
pub ping_timeout :
    (v : Server) (now later : ℕ) (s s' : Session)
    → s.last_read + v.ping_freq ≤ now
    → now ≤ later
    → has_flag registered s ≡ true
    → has_flag ping_flag s ≡ false
    → ping v now s ≡ ok s'
    → ping v later s' ≡ quit (codes "Ping timeout") s'
ping_timeout v now later s s' due after r p e =
    let q = first_ping v now s s' (ground arith) r p e in
    second_ping v later s' (ground (arith, q.1)) q.0
