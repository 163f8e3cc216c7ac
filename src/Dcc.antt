-- ===== src/Dcc.antt =====
-- src/irc/dcc.cpp and src/irc/dcc.h: files that are sent to an IRC user and received from one. What
-- the system and libpurple answer is given with each call.
pub mod Acks
pub mod Offer
pub mod Quoting
pub mod Receive
pub mod RoundTrip
use minbif.Prelude.{
  ℕ, suc, ◌+◌, ◌*◌, ◌≡◌, Bool, true, false, not, ◌&&◌, ◌||◌, List, [], ◌∷◌, ◌++◌, Option, none,
  some, Text, is_empty, length, ltb, leb, ◌==◌, if◌then◌else◌, ◌%◌, ◌^◌,
}

-- DCCServer and DCCSend. The queue's length is rxlen.
pub record DccSend : Type 0 where
  pub total_size : ℕ
  pub start_time : ℕ
  -- listen_data is not NULL
  pub listening : Bool
  pub watcher : ℕ
  -- none for -1
  pub fd : Option ℕ
  pub finished : Bool
  pub bytes_sent : ℕ
  -- fp is not NULL
  pub opened : Bool
  pub rxqueue : Text
  -- what send was called with, the descriptors that were closed
  pub out : List Text
  pub closed : List ℕ

-- DCCServer::TIMEOUT
abbrev pub timeout : ℕ
timeout = 5 * 60

abbrev pub is_none : Option ℕ → Bool
is_none none = true
is_none (some _) = false

-- the constructors, with the answer of purple_network_listen_range
unfoldable pub new_send : ℕ → ℕ → Bool → Option DccSend
new_send size now listens =
    if listens
    then some (record {
      total_size = size;
      start_time = now;
      listening = true;
      watcher = 0;
      fd = none;
      finished = false;
      bytes_sent = 0;
      opened = false;
      rxqueue = [];
      out = [];
      closed = [];
    })
    else none

-- DCCSend::deinit, with that of DCCServer
unfoldable pub deinit : DccSend → DccSend
deinit s = record s {
  closed = elim s.fd [ none ↦ s.closed | some f ↦ s.closed ++ f ∷ [] ];
  finished = true;
  fd = none;
  watcher = 0;
  listening = false;
  opened = false;
  rxqueue = [];
}

-- What fopen and fread answer.
pub record File : Type 0 where
  pub opens : Bool
  pub block : Text

-- the part of DCCSend::dcc_send behind fopen
unfoldable pub send_block : Text → DccSend → DccSend
send_block block s = record s {
  opened = true;
  out = if is_empty block then s.out else s.out ++ block ∷ [];
  bytes_sent = s.bytes_sent + length block;
}

unfoldable pub dcc_send : File → DccSend → DccSend
dcc_send file s =
    if s.finished || (s.listening || is_none s.fd)
    then s
    else if s.opened || file.opens
    then send_block file.block s
    else s

-- DCCSend::updated, at the time now
unfoldable pub updated : File → ℕ → DccSend → DccSend
updated file now s =
    if (is_none s.fd || s.listening) && ltb (s.start_time + timeout) now
    then deinit s
    else dcc_send file s

-- DCCServer::listen_cb, with the port's watch, and whether inet_aton reads the address
unfoldable pub listen_cb : ℕ → ℕ → Bool → DccSend → DccSend
listen_cb sock watch parses s =
    let bound = record s { fd = some sock; listening = false } in
    if parses then record bound { watcher = watch } else deinit bound

-- DCCServer::connected, with the answer of accept, none for -1, and the new watch
unfoldable pub connected : File → ℕ → Option ℕ → ℕ → DccSend → DccSend
connected file now conn watch s =
    if elim conn [ none ↦ false | some f ↦ f == 0 ]
    then deinit s
    else updated file now (record s {
      closed = elim s.fd [ none ↦ s.closed | some f ↦ s.closed ++ f ∷ [] ];
      fd = conn;
      watcher = watch;
    })

-- ntohl of four bytes
abbrev pub ntohl : ℕ → ℕ → ℕ → ℕ → ℕ
ntohl a b c d = ((a * 256 + b) * 256 + c) * 256 + d

-- The loop of DCCSend::dcc_read over the queue: what is left of it, or none when all is acknowledged.
unfoldable pub ack_loop : ℕ → Text → Option Text
ack_loop total [] = some []
ack_loop total (a ∷ []) = some (a ∷ [])
ack_loop total (a ∷ b ∷ []) = some (a ∷ b ∷ [])
ack_loop total (a ∷ b ∷ c ∷ []) = some (a ∷ b ∷ c ∷ [])
ack_loop total (a ∷ b ∷ c ∷ d ∷ rest) =
    let later = ack_loop total rest in if leb total (ntohl a b c d) then none else later

-- What read answers: EAGAIN, the end or an error, or bytes.
pub data Reading : Type 0 where
  again ended : Reading
  bytes : Text → Reading

-- DCCSend::dcc_read
unfoldable pub dcc_read : File → Reading → DccSend → DccSend
dcc_read file again s = s
dcc_read file ended s = deinit (record s { fd = none })
dcc_read file (bytes buffer) s = elim (ack_loop s.total_size (s.rxqueue ++ buffer)) [
  | none ↦ deinit s
  | some rest ↦ dcc_send file (record s { rxqueue = rest })
]

-- The reads of a connection, until deinit takes the watcher off.
unfoldable pub reads : List (File × Text) → DccSend → DccSend
reads [] s = s
reads ((file, buffer) ∷ rs) s = if s.finished then s else reads rs (dcc_read file (bytes buffer) s)

-- DCCGet
pub record DccGet : Type 0 where
  pub total_size : ℕ
  pub sock : Option ℕ
  pub watcher : ℕ
  pub fp : Bool
  -- callback is not NULL
  pub callback : Bool
  pub finished : Bool
  pub bytes_received : ℕ
  -- what was written to the file, the lengths that htonl was given for each acknowledgement that is
  -- written to the socket, in 32 bits, whether the write succeeds or not, and how often the callback ran
  pub written : Text
  pub acks : List ℕ
  pub runs : ℕ

-- DCCGet::deinit
unfoldable pub get_deinit : DccGet → DccGet
get_deinit g = record g { finished = true; sock = none; watcher = 0; fp = false; callback = false }

-- DCCGet::dcc_read, with how much fwrite takes of what was read
unfoldable pub get_read : Reading → ℕ → DccGet → DccGet
get_read again took g = g
get_read ended took g = get_deinit (record g { sock = none })
get_read (bytes buffer) took g =
    if ltb took (length buffer)
    then get_deinit g
    else (let stored = record g {
      written = g.written ++ buffer;
      bytes_received = g.bytes_received + length buffer;
    } in
        if leb stored.total_size stored.bytes_received
        then get_deinit (record stored {
          acks = stored.acks ++ (stored.bytes_received % 2 ^ 32) ∷ [];
          runs = if stored.callback then suc stored.runs else stored.runs;
        })
        else stored)

-- The reads of a connection whose file takes all, until deinit takes the watcher off.
unfoldable pub get_reads : List Text → DccGet → DccGet
get_reads [] g = g
get_reads (buffer ∷ bs) g =
    if g.finished then g else get_reads bs (get_read (bytes buffer) (length buffer) g)

-- DCCGet::setPeer, when the nick is not NULL and when it is
unfoldable pub set_peer : Bool → DccGet → DccGet
set_peer stays g = if stays then g else get_deinit g
