-- ===== src/Tests/Outboxes.antt =====
-- Tests of the messages that wait for a conversation (src/irc/conv_entity.cpp).
use minbif.Prelude.{◌≡◌, refl, List, [], ◌∷◌, ◌++◌, codes}
use minbif.Outbox.{Event, comes, runs_out, happen_all, new_entity}
use minbif.Outbox.Kept.{lines_of, pending, said, happen_all-said}

abbrev events : List Event
events =
    comes (codes "hello") 300 ∷ comes (codes "you") 300 ∷ runs_out ∷ comes (codes "there") 300 ∷ []

happen_all-said_example :
    (lines_of (happen_all events new_entity).sent
        ++ (happen_all events new_entity).enqueued_messages
      ≡ said events)
    × ((happen_all events new_entity).timers
        ≡ pending (happen_all events new_entity).enqueued_messages)
happen_all-said_example = happen_all-said events refl

-- two messages go together
together : (happen_all events new_entity).sent ≡ codes "hello\nyou" ∷ []
unfolding happen_all new_entity
together = refl

-- With the delay set to 0 in between, a message overtakes one that waits.
overtaken :
    (happen_all (comes (codes "hello") 300 ∷ comes (codes "you") 0 ∷ runs_out ∷ []) new_entity).sent
    ≡ codes "you" ∷ codes "hello" ∷ []
unfolding happen_all new_entity
overtaken = refl
