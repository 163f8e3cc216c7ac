-- ===== src/Tests/Networks.antt =====
-- Tests of nicks on channels (src/irc/nick.cpp and src/irc/channel.cpp).
use minbif.Prelude.{
  ℕ, ◌≡◌, refl, [], ◌∷◌, ◌&&◌, true, arith, none, some, codes, if◌then◌else◌, ◌==◌,
}
use minbif.Result.{ok}
use minbif.Bits.{single}
use minbif.Network.{ChanUser, LinkState, Net, update}
use minbif.Network.Channels.{join, part, quit}
use minbif.Network.Links.{IsLinked, on_chan, on_nick}
use minbif.Network.Leaving.{part-IsLinked}
use minbif.Network.Quitting.{quit-IsLinked}
use minbif.Network.Kicking.{kicked, kicked-IsLinked}
use minbif.Network.Joining.{join-IsLinked}
use minbif.Tests.Nicks.{flags}

-- Nick 3 is on channel 5, and on no other.
abbrev member : ChanUser
member = record { nick = 3; chan = 5; status = true ∷ [] }

abbrev pub links : LinkState
links = record {
  heap = update (λ p. none) 0 (some member);
  next = 1;
  users = update (λ c. []) 5 (0 ∷ []);
  channels = update (λ n. []) 3 (0 ∷ []);
}

abbrev pub net : Net
net = record {
  links = links;
  irc = record { name = codes "irc.example"; long_name = codes "irc.example" };
  nicks = λ n. record {
    nickname = codes "bob";
    identname = codes "b";
    hostname = codes "h";
    realname = [];
    away = [];
  };
  chan_name = λ c. codes "&minbif";
  topic = λ c. [];
  sent = [];
}

pub links-IsLinked : IsLinked links
links-IsLinked = record {
  users_eq = λ p c. ground arith;
  channels_eq = λ p n. ground arith;
  unique = λ p q a b h k ec en. ground arith;
  fresh = λ p h. ground arith;
  users_nodup = λ c. ground arith;
  channels_nodup = λ n. ground arith;
}

part-IsLinked_example :
    (after : Net) × (part 3 5 (codes "bye") net ≡ ok after)
    × IsLinked after.links
    × ((q : ℕ)
        → after.heap q
          ≡ (if on_nick 3 (net.heap q) && on_chan 5 (net.heap q) then none else net.heap q))
part-IsLinked_example = part-IsLinked 3 5 (codes "bye") net links-IsLinked

kicked-IsLinked_example :
    (after : Net) × (kicked 3 5
        (record { name = codes "op"; long_name = codes "op" })
        (codes "out")
        net
      ≡ ok after)
    × IsLinked after.links
    × ((q : ℕ)
        → after.heap q
          ≡ (if on_nick 3 (net.heap q) && on_chan 5 (net.heap q) then none else net.heap q))
kicked-IsLinked_example =
    kicked-IsLinked 3 5 (record { name = codes "op"; long_name = codes "op" }) (codes "out") net
      links-IsLinked refl

quit-IsLinked_example :
    (after : Net) × (quit 3 (codes "bye") net ≡ ok after)
    × IsLinked after.links
    × ((q : ℕ) → after.heap q ≡ (if on_nick 3 (net.heap q) then none else net.heap q))
quit-IsLinked_example = quit-IsLinked 3 (codes "bye") net links-IsLinked

join-IsLinked_example :
    (after : Net) × (join flags 4 5 (single 2) net ≡ ok (1, after))
    × IsLinked after.links
    × ((q : ℕ)
        → after.heap q ≡ (
            if 1 == q then some (record { nick = 4; chan = 5; status = single 2 }) else net.heap q))
join-IsLinked_example =
    join-IsLinked flags 4 5 (single 2) net links-IsLinked (λ q. ground arith) refl refl
