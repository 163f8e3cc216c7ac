-- ===== src/Dcc/Acks.antt =====
-- The acknowledgements that `DCCSend::dcc_read` of src/irc/dcc.cpp reads.
use minbif.Prelude.{
  ℕ, ◌*◌, ◌≤◌, ◌≡◌, refl, sym, ap, ◌∙◌, Bool, true, false, ◌||◌, List, [], ◌∷◌, ◌++◌, append_assoc,
  append-nil, none, some, Text, ltb, leb, if◌then◌else◌, any, any-append, all, Bool-cases, inl, inr,
  arith,
}
use minbif.Dcc.{
  DccSend, File, deinit, send_block, dcc_send, ntohl, ack_loop, bytes, dcc_read, reads, is_none,
}

-- The numbers of four bytes that a stream begins with, and the bytes behind the last of them.
unfoldable pub words : Text → List ℕ
words [] = []
words (a ∷ []) = []
words (a ∷ b ∷ []) = []
words (a ∷ b ∷ c ∷ []) = []
words (a ∷ b ∷ c ∷ d ∷ rest) = ntohl a b c d ∷ words rest

leftover : Text → Text
leftover [] = []
leftover (a ∷ []) = a ∷ []
leftover (a ∷ b ∷ []) = a ∷ b ∷ []
leftover (a ∷ b ∷ c ∷ []) = a ∷ b ∷ c ∷ []
leftover (a ∷ b ∷ c ∷ d ∷ rest) = leftover rest

words-append : (q x : Text) → words (q ++ x) ≡ words q ++ words (leftover q ++ x)
unfolding words leftover
words-append [] x = refl
words-append (a ∷ []) x = refl
words-append (a ∷ b ∷ []) x = refl
words-append (a ∷ b ∷ c ∷ []) x = refl
words-append (a ∷ b ∷ c ∷ d ∷ rest) x = ap (λ ws. ntohl a b c d ∷ ws) (words-append rest x)

ack_loop_lem :
    (total : ℕ) (q : Text)
    → ack_loop total q ≡ (if any (leb total) (words q) then none else some (leftover q))
unfolding ack_loop words leftover
ack_loop_lem total [] = refl
ack_loop_lem total (a ∷ []) = refl
ack_loop_lem total (a ∷ b ∷ []) = refl
ack_loop_lem total (a ∷ b ∷ c ∷ []) = refl
ack_loop_lem total (a ∷ b ∷ c ∷ d ∷ rest) = elim (Bool-cases (leb total (ntohl a b c d))) [
  | inl e ↦ rw e refl
  | inr e ↦ rw e (ack_loop_lem total rest)
]

words-leftover : (q : Text) → words (leftover q) ≡ []
unfolding words leftover
words-leftover [] = refl
words-leftover (a ∷ []) = refl
words-leftover (a ∷ b ∷ []) = refl
words-leftover (a ∷ b ∷ c ∷ []) = refl
words-leftover (a ∷ b ∷ c ∷ d ∷ rest) = words-leftover rest

-- what is read of a connection
unfoldable pub stream : List (File × Text) → Text
stream [] = []
stream ((file, buffer) ∷ rs) = buffer ++ stream rs

-- sending changes nothing that reading looks at
sent_same :
    (file : File) (s : DccSend)
    → ((dcc_send file s).rxqueue ≡ s.rxqueue)
      × ((dcc_send file s).finished ≡ s.finished)
      × ((dcc_send file s).total_size ≡ s.total_size)
unfolding dcc_send send_block
sent_same file s = elim (Bool-cases (s.finished || (s.listening || is_none s.fd))) [
  | inl e ↦ rw e (refl, refl, refl)
  | inr e ↦ elim (Bool-cases (s.opened || file.opens)) [
    | inl o ↦ rw (e, o) (refl, refl, refl)
    | inr o ↦ rw (e, o) (refl, refl, refl)
  ]
]

reads_finished : (rs : List (File × Text)) (s : DccSend) → s.finished ≡ true → reads rs s ≡ s
unfolding reads
reads_finished [] s h = refl
reads_finished ((file, buffer) ∷ rs) s h =
    ap (λ c. if c then s else reads rs (dcc_read file (bytes buffer) s)) h

reads_step :
    (file : File) (buffer : Text) (rs : List (File × Text)) (s : DccSend)
    → s.finished ≡ false
    → reads ((file, buffer) ∷ rs) s ≡ reads rs (dcc_read file (bytes buffer) s)
unfolding reads
reads_step file buffer rs s h =
    ap (λ c. if c then s else reads rs (dcc_read file (bytes buffer) s)) h

read_done :
    (file : File) (buffer : Text) (s : DccSend)
    → any (leb s.total_size) (words (s.rxqueue ++ buffer)) ≡ true
    → dcc_read file (bytes buffer) s ≡ deinit s
unfolding dcc_read
read_done file buffer s e = rw (dcc_read, ack_loop_lem s.total_size (s.rxqueue ++ buffer), e) refl

read_more :
    (file : File) (buffer : Text) (s : DccSend)
    → any (leb s.total_size) (words (s.rxqueue ++ buffer)) ≡ false
    → dcc_read file (bytes buffer) s
      ≡ dcc_send file (record s { rxqueue = leftover (s.rxqueue ++ buffer) })
unfolding dcc_read
read_more file buffer s e = rw (dcc_read, ack_loop_lem s.total_size (s.rxqueue ++ buffer), e) refl

deinit_finished : (s : DccSend) → (deinit s).finished ≡ true
unfolding deinit
deinit_finished s = refl

words_split :
    (total : ℕ) (q b t : Text)
    → any (leb total) (words (q ++ (b ++ t)))
      ≡ (any (leb total) (words (q ++ b)) || any (leb total) (words (leftover (q ++ b) ++ t)))
words_split total q b t =
    ap (λ x. any (leb total) (words x)) (sym (append_assoc q b t))
    ∙ ap (any (leb total)) (words-append (q ++ b) t)
    ∙ any-append (leb total) (words (q ++ b)) (words (leftover (q ++ b) ++ t))

-- A transfer that is not finished, with less than four bytes in its queue, goes on: however the
-- acknowledgements are cut into reads, and whatever is sent in between, it is finished exactly when
-- one of the four-byte numbers of the whole stream is the size of the file or more.
pub reads-words :
    (rs : List (File × Text)) (s : DccSend)
    → s.finished ≡ false
    → words s.rxqueue ≡ []
    → (reads rs s).finished ≡ any (leb s.total_size) (words (s.rxqueue ++ stream rs))
unfolding reads stream
reads-words [] s u q = u ∙ sym (ap (any (leb s.total_size)) (ap words (append-nil s.rxqueue) ∙ q))
reads-words ((file, buffer) ∷ rs) s u q =
    let split = words_split s.total_size s.rxqueue buffer (stream rs) in
    elim (Bool-cases (any (leb s.total_size) (words (s.rxqueue ++ buffer)))) [
      | inl e ↦
          let done : reads ((file, buffer) ∷ rs) s ≡ deinit s =
            reads_step file buffer rs s u
            ∙ ap (reads rs) (read_done file buffer s e)
            ∙ reads_finished rs (deinit s) (deinit_finished s) in
          ap (λ (t : DccSend). t.finished) done
          ∙ deinit_finished s
          ∙ sym (split ∙ ground (arith, e))
      | inr e ↦
          let kept = record s { rxqueue = leftover (s.rxqueue ++ buffer) } in
          let (same_queue, same_finished, same_size) = sent_same file kept in
          let more = reads_step file buffer rs s u ∙ ap (reads rs) (read_more file buffer s e) in
          ap (λ (t : DccSend). t.finished) more
          ∙ reads-words rs (dcc_send file kept) (same_finished ∙ u)
              (ap words same_queue ∙ words-leftover (s.rxqueue ++ buffer))
          ∙ ap (λ n. any (leb n) (words ((dcc_send file kept).rxqueue ++ stream rs))) same_size
          ∙ ap (λ x. any (leb s.total_size) (words (x ++ stream rs))) same_queue
          ∙ sym (split ∙ ground (arith, e))
    ]

abbrev pub is_byte : ℕ → Bool
is_byte b = ltb b 256

below_size :
    (total : ℕ) (q : Text)
    → 256 * 256 * 256 * 256 ≤ total
    → all is_byte q ≡ true
    → any (leb total) (words q) ≡ false
unfolding words
below_size total [] h k = refl
below_size total (a ∷ []) h k = refl
below_size total (a ∷ b ∷ []) h k = refl
below_size total (a ∷ b ∷ c ∷ []) h k = refl
below_size total (a ∷ b ∷ c ∷ d ∷ rest) h k = ground (arith, below_size total rest h)

-- A transfer of 4 GiB or more that is not finished, with less than four bytes in its queue, is never
-- finished by what is acknowledged, whatever bytes come.
pub reads_unfinished :
    (rs : List (File × Text)) (s : DccSend)
    → s.finished ≡ false
    → words s.rxqueue ≡ []
    → 256 * 256 * 256 * 256 ≤ s.total_size
    → all is_byte (s.rxqueue ++ stream rs) ≡ true
    → (reads rs s).finished ≡ false
reads_unfinished rs s u q h k =
    reads-words rs s u q ∙ below_size s.total_size (s.rxqueue ++ stream rs) h k
