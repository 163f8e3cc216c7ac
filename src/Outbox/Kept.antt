-- ===== src/Outbox/Kept.antt =====
-- The messages of one line that wait for a conversation for some time, in src/irc/conv_entity.cpp.
use minbif.Prelude.{
  ℕ, suc, ◌-◌, ◌≡◌, refl, ap, sym, ◌∙◌, Bool, true, false, not, ◌&&◌, List, [], ◌∷◌, ◌++◌,
  append_assoc, append-nil, Text, codes, is_empty, first, length, length-append, all, arith, ◌==◌,
  if◌then◌else◌,
}
use minbif.Token.Words.{words, words-empty, words-clean, words-snoc, clean, keep}
use minbif.Outbox.{
  ConvEntity, enqueue_message, with_break, flush_loop, flush_messages, Event, comes, runs_out,
  happen, happen_all, new_entity,
}

abbrev break : Text
break = codes "\n"

-- the lines of what was sent, the empty ones left out
abbrev pub lines_of : List Text → List Text
lines_of [] = []
lines_of (m ∷ ms) = words break m ++ lines_of ms

lines_of-append : (xs ys : List Text) → lines_of (xs ++ ys) ≡ lines_of xs ++ lines_of ys
lines_of-append [] ys = refl
lines_of-append (x ∷ xs) ys =
    ap (λ l. words break x ++ l) (lines_of-append xs ys)
    ∙ sym (append_assoc (words break x) (lines_of xs) (lines_of ys))

-- a message of one line, with something in it
abbrev pub is_line : Text → Bool
is_line s = clean break s && not (is_empty s)

keep_line : (s : Text) (ws : List Text) → is_line s ≡ true → keep s ws ≡ s ∷ ws
keep_line [] ws h = cc
keep_line (c ∷ s) ws h = refl

words_line : (s : Text) → is_line s ≡ true → words break s ≡ s ∷ []
words_line s h = words-clean break s (ground arith) ∙ keep_line s [] h

words-with_break :
    (buf s : Text)
    → is_line s ≡ true
    → words break (with_break buf ++ s) ≡ words break buf ++ s ∷ []
unfolding with_break
words-with_break [] s h = words_line s h ∙ sym (ap (λ x. x ++ s ∷ []) (words-empty break))
words-with_break (c ∷ buf) s h =
    ap (words break) (append_assoc (c ∷ buf) (b'\n' ∷ []) s)
    ∙ words-snoc break (c ∷ buf) b'\n' s refl (ground arith)
    ∙ ap (λ x. words break (c ∷ buf) ++ x) (keep_line s [] h)

-- what is sent has the lines that were gathered, and the messages
flush_loop-lines :
    (q : List Text) (buf : Text)
    → all is_line q ≡ true
    → lines_of (flush_loop q buf) ≡ words break buf ++ q
unfolding flush_loop
flush_loop-lines [] [] h = sym (ap (λ x. x ++ []) (words-empty break))
flush_loop-lines [] (c ∷ buf) h = refl
flush_loop-lines (s ∷ r) buf h =
    choose (first s == 1) buf (flush_loop-lines r [] (ground arith))
      (flush_loop-lines r (with_break buf ++ s) (ground arith))
  where
    one : is_line s ≡ true
    one = ground arith

    one_sent :
        lines_of (flush_loop r []) ≡ words break [] ++ r
        → words break s ++ lines_of (flush_loop r []) ≡ s ∷ r
    one_sent e =
        ap (λ x. x ++ lines_of (flush_loop r [])) (words_line s one)
        ∙ ap (◌∷◌ s) (e ∙ ap (λ x. x ++ r) (words-empty break))

    choose :
        (b : Bool) (buf : Text)
        → lines_of (flush_loop r []) ≡ words break [] ++ r
        → lines_of (flush_loop r (with_break buf ++ s)) ≡ words break (with_break buf ++ s) ++ r
        → lines_of (
            if b
            then (if is_empty buf then s ∷ flush_loop r [] else buf ∷ s ∷ flush_loop r [])
            else flush_loop r (with_break buf ++ s))
          ≡ words break buf ++ s ∷ r
    choose true [] e f = one_sent e ∙ sym (ap (λ x. x ++ s ∷ r) (words-empty break))
    choose true (c ∷ buf) e f = ap (λ x. words break (c ∷ buf) ++ x) (one_sent e)
    choose false buf e f =
        f
        ∙ ap (λ x. x ++ r) (words-with_break buf s one)
        ∙ append_assoc (words break buf) (s ∷ []) r

-- one timer for messages that wait, and none for none
abbrev pub pending : List Text → ℕ
pending [] = 0
pending (s ∷ q) = 1

-- messages wait with their timer
record IsWaiting (c : ConvEntity) : Type 0 where
  lines_ok : all is_line c.enqueued_messages ≡ true
  timers_ok : c.timers ≡ pending c.enqueued_messages

-- the lines sent, and the messages that wait
abbrev pub all_lines : ConvEntity → List Text
all_lines c = lines_of c.sent ++ c.enqueued_messages

-- the messages of the events
abbrev pub said : List Event → List Text
said [] = []
said (comes text delay ∷ es) = text ∷ said es
said (runs_out ∷ es) = said es

-- a message of one line, with a delay
abbrev pub is_delayed : Event → Bool
is_delayed (comes text delay) = not (delay == 0) && is_line text
is_delayed runs_out = true

pending_snoc :
    (q : List Text) (t : Text) (n : ℕ)
    → n ≡ pending q
    → (if length (q ++ t ∷ []) == 1 then suc n else n) ≡ pending (q ++ t ∷ [])
pending_snoc [] t n h = ground (arith, h)
pending_snoc (s ∷ q) t n h = ground (arith, h, length-append q (t ∷ []))

all_snoc :
    (q : List Text) (t : Text)
    → all is_line q ≡ true
    → is_line t ≡ true
    → all is_line (q ++ t ∷ []) ≡ true
all_snoc [] t a b = ground arith
all_snoc (s ∷ q) t a b = ground (arith, all_snoc q t)

flush_messages-lines : (c : ConvEntity) → IsWaiting c → all_lines (flush_messages c) ≡ all_lines c
unfolding flush_messages
flush_messages-lines c w =
    append-nil (lines_of (c.sent ++ flush_loop c.enqueued_messages []))
    ∙ lines_of-append c.sent (flush_loop c.enqueued_messages [])
    ∙ ap (λ x. lines_of c.sent ++ x)
        (flush_loop-lines c.enqueued_messages [] w.lines_ok
          ∙ ap (λ x. x ++ c.enqueued_messages) (words-empty break))

-- what an event does to the lines
record Stepped (e : Event) (c d : ConvEntity) : Type 0 where
  waiting : IsWaiting d
  lines : all_lines d ≡ all_lines c ++ said (e ∷ [])

same_lines : (e : List Text) → e ≡ e ++ []
same_lines e = sym (append-nil e)

pending_end : (q : List Text) (n : ℕ) → n ≡ pending q → n - 1 ≡ 0
pending_end [] n h = omega (arith, h)
pending_end (s ∷ q) n h = omega (arith, h)

happen-Stepped :
    (e : Event) (c : ConvEntity) → is_delayed e ≡ true → IsWaiting c → Stepped e c (happen e c)
unfolding happen enqueue_message
happen-Stepped (comes text delay) c h w =
    let late : (delay == 0) ≡ false = ground arith in
    rw late (record {
      waiting = record {
        lines_ok = all_snoc c.enqueued_messages text w.lines_ok (ground arith);
        timers_ok = pending_snoc c.enqueued_messages text c.timers w.timers_ok;
      };
      lines = sym (append_assoc (lines_of c.sent) c.enqueued_messages (text ∷ []));
    })
happen-Stepped runs_out c h w = choose (c.timers == 0)
  where
    choose : (b : Bool) → Stepped runs_out c (if b then c else flush_messages c)
    choose true = record { waiting = w; lines = same_lines (all_lines c) }
    choose false = record {
      waiting = flushed;
      lines = flush_messages-lines c w ∙ same_lines (all_lines c);
    }
      where
        flushed : IsWaiting (flush_messages c)
        flushed = record {
          lines_ok = (unfold flush_messages in refl);
          timers_ok =
              (unfold flush_messages in pending_end c.enqueued_messages c.timers w.timers_ok);
        }

said_first : (e : Event) (es : List Event) → said (e ∷ es) ≡ said (e ∷ []) ++ said es
said_first (comes text delay) es = refl
said_first runs_out es = refl

happen_all_lem :
    (es : List Event) (c : ConvEntity)
    → all is_delayed es ≡ true
    → IsWaiting c
    → (all_lines (happen_all es c) ≡ all_lines c ++ said es) × IsWaiting (happen_all es c)
unfolding happen_all
happen_all_lem [] c h w = (same_lines (all_lines c), w)
happen_all_lem (e ∷ es) c h w =
    let d = happen-Stepped e c (ground arith) w in
    let (lines, waiting) = happen_all_lem es (happen e c) (ground arith) d.waiting in
    (
      lines
          ∙ ap (λ x. x ++ said es) d.lines
          ∙ append_assoc (all_lines c) (said (e ∷ [])) (said es)
          ∙ ap (λ x. all_lines c ++ x) (sym (said_first e es)),
      waiting,
    )

-- Whatever messages of one line come for a conversation, each with a delay, and whenever its timers run
-- out: the lines that were sent and then the messages that wait are the messages that came, each once
-- and in order, and one timer is set if some wait, none if none does.
pub happen_all-said :
    (es : List Event)
    → all is_delayed es ≡ true
    → (lines_of (happen_all es new_entity).sent ++ (happen_all es new_entity).enqueued_messages
        ≡ said es)
      × ((happen_all es new_entity).timers ≡ pending (happen_all es new_entity).enqueued_messages)
unfolding new_entity
happen_all-said es h =
    let (lines, waiting) =
      happen_all_lem es new_entity h (record { lines_ok = refl; timers_ok = refl }) in
    (lines, waiting.timers_ok)
