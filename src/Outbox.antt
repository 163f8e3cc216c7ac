-- ===== src/Outbox.antt =====
-- ConvEntity of src/irc/conv_entity.cpp: the messages for a conversation, which wait for a timer and
-- are sent together.
pub mod Kept
use minbif.Prelude.{
  ℕ, zero, suc, ◌-◌, ◌≡◌, Bool, true, false, List, [], ◌∷◌, ◌++◌, Text, is_empty, first, length,
  ◌==◌, if◌then◌else◌,
}

-- The entity, with the timers that are set for it and what its conversation was given to send.
pub record ConvEntity : Type 0 where
  pub enqueued_messages : List Text
  pub timers : ℕ
  pub sent : List Text

-- ConvEntity::enqueueMessage
unfoldable pub enqueue_message : Text → ℕ → ConvEntity → ConvEntity
enqueue_message text delay c =
    if delay == 0
    then record c { sent = c.sent ++ text ∷ [] }
    else (let q = c.enqueued_messages ++ text ∷ [] in
        record c {
          enqueued_messages = q;
          timers = if length q == 1 then suc c.timers else c.timers;
        })

-- if (!buf.empty()) buf += '\n';
unfoldable pub with_break : Text → Text
with_break buf = if is_empty buf then buf else buf ++ b'\n' ∷ []

-- The loop of flush_messages: what is sent, from what is gathered so far.
unfoldable pub flush_loop : List Text → Text → List Text
unfolding with_break
flush_loop [] buf = if is_empty buf then [] else buf ∷ []
flush_loop (s ∷ r) buf =
    let alone = flush_loop r [] in
    let together = flush_loop r (with_break buf ++ s) in
    if first s == 1 then (if is_empty buf then s ∷ alone else buf ∷ s ∷ alone) else together

-- ConvEntity::flush_messages, by a timer that is not set again
unfoldable pub flush_messages : ConvEntity → ConvEntity
unfolding flush_loop
flush_messages c = record c {
  enqueued_messages = [];
  timers = c.timers - 1;
  sent = c.sent ++ flush_loop c.enqueued_messages [];
}

-- What happens to an entity: a message comes, or a timer runs out, if one is set.
pub data Event : Type 0 where
  comes : Text → ℕ → Event
  runs_out : Event

unfoldable pub happen : Event → ConvEntity → ConvEntity
unfolding enqueue_message flush_messages
happen (comes text delay) c = enqueue_message text delay c
happen runs_out c = if c.timers == 0 then c else flush_messages c

unfoldable pub happen_all : List Event → ConvEntity → ConvEntity
unfolding happen
happen_all [] c = c
happen_all (e ∷ es) c = happen_all es (happen e c)

-- ConvEntity::ConvEntity
unfoldable pub new_entity : ConvEntity
new_entity = record { enqueued_messages = []; timers = 0; sent = [] }
