-- ===== src/Tests/Transfers.antt =====
-- Tests of file transfers (src/irc/dcc.cpp).
use minbif.Prelude.{
  ℕ, ◌*◌, ◌≡◌, refl, List, [], ◌∷◌, false, true, arith, some, Text, codes, any, leb,
}
use minbif.Dcc.{
  DccSend, DccGet, File, deinit, send_block, dcc_send, ack_loop, dcc_read, reads, get_deinit,
  get_read, get_reads,
}
use minbif.Dcc.Acks.{words, stream, reads-words, reads_unfinished}
use minbif.Dcc.Receive.{IsOpen, IsReceived, get_reads-IsReceived}

abbrev sending : ℕ → DccSend
sending size = record {
  total_size = size;
  start_time = 0;
  listening = false;
  watcher = 7;
  fd = some 5;
  finished = false;
  bytes_sent = 0;
  opened = true;
  rxqueue = 0 ∷ [];
  out = [];
  closed = [];
}

abbrev file : File
file = record { opens = true; block = codes "data" }

-- the numbers 2 and 3, in reads of two, four and two bytes
abbrev answers : List (File × Text)
answers = (file, 0 ∷ 0 ∷ []) ∷ (file, 2 ∷ 0 ∷ 0 ∷ 0 ∷ []) ∷ (file, 3 ∷ 9 ∷ []) ∷ []

reads_test :
    ((reads answers (sending 3)).out ≡ codes "data" ∷ codes "data" ∷ [])
    × ((reads answers (sending 3)).finished ≡ true)
unfolding reads dcc_read ack_loop dcc_send send_block deinit
reads_test = (refl, refl)

reads-words_example :
    (reads answers (sending 3)).finished ≡ any (leb 3) (words (0 ∷ stream answers))
unfolding words
reads-words_example = reads-words answers (sending 3) refl refl

reads_unfinished_example : (reads answers (sending (256 * 256 * 256 * 256))).finished ≡ false
unfolding words stream
reads_unfinished_example =
    reads_unfinished answers (sending (256 * 256 * 256 * 256)) refl refl (omega arith) refl

abbrev getting : DccGet
getting = record {
  total_size = 4;
  sock = some 5;
  watcher = 7;
  fp = true;
  callback = true;
  finished = false;
  bytes_received = 0;
  written = [];
  acks = [];
  runs = 0;
}

abbrev blocks : List Text
blocks = codes "ab" ∷ codes "cde" ∷ codes "f" ∷ []

get_reads_test :
    ((get_reads blocks getting).written ≡ codes "abcde")
    × ((get_reads blocks getting).acks ≡ 5 ∷ [])
unfolding get_reads get_read get_deinit
get_reads_test = (refl, refl)

getting-IsOpen : IsOpen getting
getting-IsOpen = record { unfinished = refl; length_eq = refl; no_ack = refl; waiting = refl }

get_reads-IsReceived_example : IsReceived getting blocks (get_reads blocks getting)
get_reads-IsReceived_example = get_reads-IsReceived blocks getting getting-IsOpen refl
