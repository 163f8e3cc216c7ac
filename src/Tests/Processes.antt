-- ===== src/Tests/Processes.antt =====
-- Tests of the messages between processes (src/server_poll/daemon_fork.cpp).
use minbif.Prelude.{
  ℕ, zero, suc, ◌≡◌, ◌≤◌, refl, inl, inr, Bool, true, ◌||◌, [], ◌∷◌, ◌++◌, some, none, Text, codes,
  map, length, arith,
}
use minbif.Result.{Result, ok, err, ◌>>=◌}
use minbif.Message.{message, format}
use minbif.Message.RoundTrip.{plain, plain_args}
use minbif.Message.Stream.{IsWire, line}
use minbif.Ipc.{
  Child, Poll, Os, Served, bytes, ipc_master_broadcast, ipc_read, dispatch, m_user, set_username,
  same_name,
}
use minbif.Ipc.Clients.{Connection, fork_parent, new_client}
use minbif.Ipc.Broadcast.{sending, with_done, ipc_master_broadcast_lem}
use minbif.Ipc.Sessions.{others, die, m_user_lem}
use minbif.Ipc.Quiet.{told}
use minbif.Ipc.Reach.{Reach, here, step, client, read}
use minbif.Ipc.Bounded.{childs_bounded}
use minbif.Ipc.Told.{same_user_told}
use minbif.Ipc.Delivery.{ipc_read-format, ipc_read_stalls, read_all, concat, has_no_end}

abbrev os : Os
os = record { writes = λ fd t. true }

abbrev master : Poll
master = record { irc = none; maxcon = 2; sock = some 3; childs = []; next = 0; done = [] }

abbrev bob : Child
bob = record { object = 0; fd = 5; username = codes "bob" }

abbrev ann : Child
ann = record { object = 1; fd = 7; username = [] }

abbrev serving : Poll
serving = record {
  irc = none;
  maxcon = 2;
  sock = some 3;
  childs = bob ∷ ann ∷ [];
  next = 2;
  done = [];
}

ipc_master_broadcast_lem_example :
    ipc_master_broadcast os (message (codes "REHASH")) (some 0) serving
    ≡ (true, with_done serving (map (sending os (message (codes "REHASH"))) (ann ∷ [])))
ipc_master_broadcast_lem_example =
    ipc_master_broadcast_lem os (message (codes "REHASH")) (some 0) serving

m_user_lem_example :
    m_user os (some ann) (plain (codes "USER") (codes "BOB" ∷ [])) serving
    ≡ ok (
        with_done
          (record serving { childs = set_username 1 (codes "BOB") serving.childs })
          (map
            (sending os (die (codes "BOB")))
            (others 1 (codes "BOB") (set_username 1 (codes "BOB") serving.childs))))
m_user_lem_example =
    m_user_lem os ann (plain (codes "USER") (codes "BOB" ∷ [])) (codes "BOB") [] serving refl refl

abbrev connection : ℕ → ℕ → Connection
connection a b = record {
  accepted = some 4;
  pair = some (a, b);
  forked = fork_parent;
  started = none;
}

abbrev first_client : Poll
first_client = new_client (connection 5 6) master

abbrev second_client : Poll
second_client = new_client (connection 7 8) first_client

both_in : Reach os master second_client
both_in =
    step (step (here master) (client (connection 5 6) master))
      (client (connection 7 8) first_client)

childs_bounded_example : length second_client.childs ≤ second_client.maxcon
unfolding new_client minbif.Ipc.Clients.in_parent minbif.Ipc.add
childs_bounded_example = childs_bounded os master second_client refl both_in (omega arith)

abbrev poll_of : Result (Bool × Text × Poll) → Poll
poll_of (ok (keep, rest, p)) = p
poll_of (err e) = master

-- Both say that their user is bob.
abbrev first_name : Poll
first_name =
    poll_of (
      ipc_read os (some (record bob { username = [] })) (bytes (codes "USER bob\r\n"))
        second_client)

abbrev second_name : Poll
second_name = poll_of (ipc_read os (some ann) (bytes (codes "USER Bob\r\n")) first_name)

both_named : Reach os master second_name
unfolding new_client minbif.Ipc.Clients.in_parent minbif.Ipc.add ipc_read minbif.Ipc.drop
    minbif.Ipc.line_of minbif.Message.parse minbif.Message.parse_loop minbif.Message.strupper
    minbif.Message.set_command minbif.Message.add_arg dispatch minbif.Ipc.lookup minbif.Ipc.ipc_cmds
    m_user minbif.Message.get_arg minbif.Ipc.user_loop set_username same_name minbif.Irc.add_args
    minbif.Ipc.ipc_master_send format minbif.Message.format_args minbif.Message.strlower
    minbif.Token.stringtok
both_named =
    step
      (step both_in (
        read (some (record bob { username = [] })) (bytes (codes "USER bob\r\n")) second_client
          (inl refl) refl))
      (read (some ann) (bytes (codes "USER Bob\r\n")) first_name (inr (inl refl)) refl)

same_user_told_example : (told 0 second_name || told 1 second_name) ≡ true
unfolding new_client minbif.Ipc.Clients.in_parent minbif.Ipc.add ipc_read minbif.Ipc.drop
    minbif.Ipc.line_of minbif.Message.parse minbif.Message.parse_loop minbif.Message.strupper
    minbif.Message.set_command minbif.Message.add_arg dispatch minbif.Ipc.lookup minbif.Ipc.ipc_cmds
    m_user minbif.Message.get_arg minbif.Ipc.user_loop set_username same_name minbif.Irc.add_args
    minbif.Ipc.ipc_master_send format minbif.Message.format_args minbif.Message.strlower
    minbif.Token.stringtok
same_user_told_example =
    same_user_told os master second_name (λ fd t. refl) refl both_named bob
      (record ann { username = codes "Bob" }) (inl refl) (inr (inl refl)) refl refl refl

abbrev user_message : minbif.Message.Message
user_message = plain (codes "USER") (codes "bob" ∷ [])

user-IsWire : IsWire user_message
unfolding plain_args minbif.Token.behind minbif.Message.strupper
user-IsWire = record {
  sender = refl;
  receiver = refl;
  command = record { named = refl; spaceless = refl; upper = refl };
  args = refl;
  one_line = refl;
  one_line_args = refl;
}

ipc_read-format_example :
    ipc_read os (some ann) (bytes (format user_message ++ codes "WALL")) serving ≡ (
      dispatch os (some ann) (line user_message user-IsWire) user_message serving >>= λ after.
      ok (true, codes "WALL", after))
unfolding format minbif.Message.format_args
ipc_read-format_example =
    ipc_read-format os (some ann) user_message (codes "WALL") serving user-IsWire (omega arith) refl

abbrev long : ℕ → Text
long zero = []
long (suc n) = b'x' ∷ long n

ipc_read_stalls_example :
    read_all os (some ann) (long 511 ++ codes "\r\n") (codes "PING\r\n" ∷ []) serving
    ≡ ok (true, long 511 ++ codes "\r\nPING\r\n", serving)
unfolding concat
ipc_read_stalls_example =
    ipc_read_stalls os (some ann) (long 511) (codes "\r\n") (codes "PING\r\n" ∷ []) serving refl
      (unfold has_no_end in refl)
