-- ===== src/Network.antt =====
-- src/irc/nick.cpp and src/irc/channel.cpp: nicks on channels. Nicks and channels are numbers, the
-- `ChanUser` objects that both point to stand on a heap, and what `Nick::send` is called with is
-- kept in order. The virtual methods are those of `Nick` and `Channel` themselves.
pub mod Channels
pub mod Links
pub mod Deletion
pub mod Leaving
pub mod Quitting
pub mod Joining
pub mod Status
pub mod Rejoining
pub mod Kicking
use minbif.Prelude.{
  ℕ, suc, ◌+◌, ◌≡◌, Bool, true, false, not, List, [], ◌∷◌, ◌++◌, Option, none, some, Text, codes,
  is_empty, ◌==◌, if◌then◌else◌,
}
use minbif.Result.{Result, ok, err, undefined, ◌>>=◌}
use minbif.Bits.{Bits}
use minbif.Message.{Entity, Message}
use minbif.Nick.{NickInfo, get_long_name}

pub record ChanUser : Type 0 where
  pub nick : ℕ
  pub chan : ℕ
  pub status : Bits

-- The pointers. An object that is not on the heap was never made, or was deleted.
pub record LinkState : Type 0 where
  pub heap : ℕ → Option ChanUser
  pub next : ℕ
  pub users : ℕ → List ℕ
  pub channels : ℕ → List ℕ

pub record Net : Type 0 where
  pub links : LinkState
  pub open links use *
  pub irc : Entity
  pub nicks : ℕ → NickInfo
  pub chan_name : ℕ → Text
  pub topic : ℕ → Text
  pub sent : List (ℕ × Message)

abbrev pub update {ℓ} : {A : Type ℓ} → (ℕ → A) → ℕ → A → ℕ → A
update f k v j = if k == j then v else f j

-- Nick::send
unfoldable pub send : ℕ → Message → Net → Net
send n m net = record net { sent = net.sent ++ (n, m) ∷ [] }

-- reading through a pointer
unfoldable pub deref : ℕ → Net → Result ChanUser
deref p net = elim (net.heap p) [ none ↦ err undefined | some cu ↦ ok cu ]

-- new ChanUser
unfoldable pub allocate : ChanUser → Net → Net
allocate cu net = record net {
  links = record net.links { heap = update net.heap net.next (some cu); next = suc net.next };
}

-- delete
unfoldable pub free : ℕ → Net → Net
free p net = record net { links = record net.links { heap = update net.heap p none } }

unfoldable pub write : ℕ → ChanUser → Net → Net
write p cu net = record net { links = record net.links { heap = update net.heap p (some cu) } }

unfoldable pub set_users : ℕ → List ℕ → Net → Net
set_users c ps net = record net { links = record net.links { users = update net.users c ps } }

unfoldable pub set_channels : ℕ → List ℕ → Net → Net
set_channels n ps net = record net {
  links = record net.links { channels = update net.channels n ps };
}

abbrev pub nick_entity : ℕ → Net → Entity
nick_entity n net = record {
  name = (net.nicks n).nickname;
  long_name = get_long_name (net.nicks n);
}

abbrev pub chan_entity : ℕ → Net → Entity
chan_entity c net = record { name = net.chan_name c; long_name = net.chan_name c }
