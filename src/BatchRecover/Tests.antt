-- ===== src/BatchRecover/Tests.antt =====
-- Tests and instances for the accumulator of scrub-rs/src/batch_recover.rs.
use rotshield.Prelude.{ℕ, ◌≡◌, refl, List, [], ◌∷◌, arith}
use rotshield.BatchRecover.{
  Msg, candidate, BatchMsg, batch, Received, message, timeout, send, finish, run_accumulator,
}
use rotshield.BatchRecover.Delivery.{Delivers, run_accumulator-Delivers}

-- Three candidates, a pause, one more, and the end of the scrub.
abbrev events : List (Received ℕ)
events =
    message (candidate 1)
    ∷ message (candidate 2)
    ∷ message (candidate 3)
    ∷ timeout
    ∷ message (candidate 4)
    ∷ message Msg.done
    ∷ []

-- With batches of at most two.
two_at_a_time :
    run_accumulator 2 events [] 8
    ≡ batch (1 ∷ 2 ∷ []) ∷ batch (3 ∷ []) ∷ batch (4 ∷ []) ∷ BatchMsg.done ∷ []
unfolding run_accumulator send finish
two_at_a_time = refl

-- A writer that hangs up after one batch gets no more.
hung_up : run_accumulator 2 events [] 1 ≡ batch (1 ∷ 2 ∷ []) ∷ []
unfolding run_accumulator send finish
hung_up = refl

run_accumulator-Delivers_example : Delivers 2 (1 ∷ 2 ∷ 3 ∷ 4 ∷ []) (run_accumulator 2 events [] 8)
run_accumulator-Delivers_example =
    run_accumulator-Delivers 2 events [] 8 (omega arith) (omega arith)
