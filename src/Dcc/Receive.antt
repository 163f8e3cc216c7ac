-- ===== src/Dcc/Receive.antt =====
-- What `DCCGet` of src/irc/dcc.cpp writes to its file.
use minbif.Prelude.{
  ℕ, suc, ◌+◌, ◌≡◌, refl, sym, ap, ◌∙◌, true, false, List, [], ◌∷◌, ◌++◌, append_assoc, append-nil,
  Text, length, ltb, leb, if◌then◌else◌, Bool-cases, inl, inr, arith, length-append, subst, ◌%◌,
  ◌^◌,
}
use minbif.Dcc.{DccGet, get_deinit, bytes, get_read, get_reads}

-- The bytes of the reads up to the one by which a transfer that has got n bytes has got its size.
unfoldable pub received : ℕ → ℕ → List Text → Text
received size n [] = []
received size n (b ∷ bs) =
    let rest = received size (n + length b) bs in if leb size (n + length b) then b else b ++ rest

-- A transfer that is open, whose file takes all.
pub record IsOpen (g : DccGet) : Type 0 where
  pub unfinished : g.finished ≡ false
  pub length_eq : g.bytes_received ≡ length g.written
  pub no_ack : g.acks ≡ []
  pub waiting : g.callback ≡ true

get_reads_finished : (bs : List Text) (g : DccGet) → g.finished ≡ true → get_reads bs g ≡ g
unfolding get_reads
get_reads_finished [] g h = refl
get_reads_finished (b ∷ bs) g h =
    ap (λ c. if c then g else get_reads bs (get_read (bytes b) (length b) g)) h

get_reads_step :
    (b : Text) (bs : List Text) (g : DccGet)
    → g.finished ≡ false
    → get_reads (b ∷ bs) g ≡ get_reads bs (get_read (bytes b) (length b) g)
unfolding get_reads
get_reads_step b bs g h =
    ap (λ c. if c then g else get_reads bs (get_read (bytes b) (length b) g)) h

stored : Text → DccGet → DccGet
stored b g = record g { written = g.written ++ b; bytes_received = g.bytes_received + length b }

completed : Text → DccGet → DccGet
unfolding stored
completed b g = get_deinit (record (stored b g) {
  acks = g.acks ++ ((g.bytes_received + length b) % 2 ^ 32) ∷ [];
  runs = if g.callback then suc g.runs else g.runs;
})

completed_finished : (b : Text) (g : DccGet) → (completed b g).finished ≡ true
unfolding completed get_deinit
completed_finished b g = refl

get_read_last :
    (b : Text) (g : DccGet)
    → leb g.total_size (g.bytes_received + length b) ≡ true
    → get_read (bytes b) (length b) g ≡ completed b g
unfolding get_read completed stored
get_read_last b g e =
    let whole : ltb (length b) (length b) ≡ false = ground arith in rw (get_read, whole, e) refl

get_read_more :
    (b : Text) (g : DccGet)
    → leb g.total_size (g.bytes_received + length b) ≡ false
    → get_read (bytes b) (length b) g ≡ stored b g
unfolding get_read stored
get_read_more b g e =
    let whole : ltb (length b) (length b) ≡ false = ground arith in rw (get_read, whole, e) refl

-- The transfer r has got what comes up to the read that brings the size. It is finished exactly when
-- its file has the size; then, and not before, the length, cut to 32 bits, is acknowledged once and the
-- callback runs.
pub record IsReceived (g : DccGet) (bs : List Text) (r : DccGet) : Type 0 where
  pub written_eq : r.written ≡ g.written ++ received g.total_size g.bytes_received bs
  pub finished_eq : r.finished ≡ leb g.total_size (length r.written)
  pub acks_eq : r.acks ≡ (if r.finished then (length r.written % 2 ^ 32) ∷ [] else [])
  pub runs_eq : r.runs ≡ (if r.finished then suc g.runs else g.runs)

completed-IsReceived :
    (b : Text) (bs : List Text) (g : DccGet)
    → IsOpen g
    → leb g.total_size (g.bytes_received + length b) ≡ true
    → IsReceived g (b ∷ bs) (completed b g)
unfolding completed stored get_deinit received
completed-IsReceived b bs g v e =
    let size = ap (λ n. n + length b) v.length_eq ∙ sym (length-append g.written b) in
    record {
      written_eq =
          ap
            (λ c.
              g.written
              ++ (if c then b else b ++ received g.total_size (g.bytes_received + length b) bs))
            (sym e);
      finished_eq = sym (ap (leb g.total_size) (sym size) ∙ e);
      acks_eq =
          ap (λ x. x ++ ((g.bytes_received + length b) % 2 ^ 32) ∷ []) v.no_ack
          ∙ ap (λ n. (n % 2 ^ 32) ∷ []) size;
      runs_eq = ap (λ c. if c then suc g.runs else g.runs) v.waiting;
    }

stored-IsOpen : (b : Text) (g : DccGet) → IsOpen g → IsOpen (stored b g)
unfolding stored
stored-IsOpen b g v = record {
  unfinished = v.unfinished;
  length_eq = ground (arith, v.length_eq, length-append g.written b);
  no_ack = v.no_ack;
  waiting = v.waiting;
}

stored-IsReceived :
    (b : Text) (bs : List Text) (g r : DccGet)
    → leb g.total_size (g.bytes_received + length b) ≡ false
    → IsReceived (stored b g) bs r
    → IsReceived g (b ∷ bs) r
unfolding stored received
stored-IsReceived b bs g r e w = record {
  written_eq =
      w.written_eq
      ∙ append_assoc g.written b (received g.total_size (g.bytes_received + length b) bs)
      ∙ ap
          (λ c.
            g.written
            ++ (if c then b else b ++ received g.total_size (g.bytes_received + length b) bs))
          (sym e);
  finished_eq = w.finished_eq;
  acks_eq = w.acks_eq;
  runs_eq = w.runs_eq;
}

-- A download goes on that is open, with its callback, that has acknowledged nothing, and that has
-- counted what it has written, less than the size. However the bytes come, in reads that the file
-- takes whole, what is written is what comes up to the read that brings the size; the transfer is
-- finished exactly when the file has its size, and then, not before and once only, an acknowledgement
-- of the length, cut to 32 bits, is written to the socket and the callback runs.
pub get_reads-IsReceived :
    (bs : List Text) (g : DccGet)
    → IsOpen g
    → leb g.total_size g.bytes_received ≡ false
    → IsReceived g bs (get_reads bs g)
unfolding get_reads received
get_reads-IsReceived [] g v h = record {
  written_eq = sym (append-nil g.written);
  finished_eq = ground (arith, v.unfinished, v.length_eq, h);
  acks_eq = ground (arith, v.unfinished, v.no_ack);
  runs_eq = ground (arith, v.unfinished);
}
get_reads-IsReceived (b ∷ bs) g v h =
    elim (Bool-cases (leb g.total_size (g.bytes_received + length b))) [
      | inl e ↦
          let done =
            get_reads_step b bs g v.unfinished
            ∙ ap (get_reads bs) (get_read_last b g e)
            ∙ get_reads_finished bs (completed b g) (completed_finished b g) in
          subst (IsReceived g (b ∷ bs)) (sym done) (completed-IsReceived b bs g v e)
      | inr e ↦
          let more = get_reads_step b bs g v.unfinished ∙ ap (get_reads bs) (get_read_more b g e) in
          subst (IsReceived g (b ∷ bs)) (sym more) (
            stored-IsReceived b bs g _ e
              (get_reads-IsReceived bs (stored b g) (stored-IsOpen b g v) (unfold stored in e)))
    ]
