-- ===== src/BatchRecover.antt =====
-- The accumulator thread of scrub-rs/src/batch_recover.rs, which collects candidates in batches for
-- the writer. A candidate is a value of any type, which the thread only moves. What the receiving
-- channel gives is a list: messages, and the timeouts of `recv_timeout`; its end is the disconnection
-- of all senders.
pub mod Delivery
pub mod Writer
mod Tests
use rotshield.Prelude.{ℕ, zero, suc, ltb, if◌then◌else◌, List, [], ◌∷◌, ◌++◌, length}

pub data Msg {ℓ} (C : Type ℓ) : Type ℓ where
  candidate : C → Msg C
  done : Msg C

pub data BatchMsg {ℓ} (C : Type ℓ) : Type ℓ where
  batch : List C → BatchMsg C
  done : BatchMsg C

pub data Received {ℓ} (C : Type ℓ) : Type ℓ where
  message : Msg C → Received C
  timeout : Received C

module _ {ℓ} {C : Type ℓ} where
  -- A channel that takes as many sends as `room` says before the writer hangs up. A failed send of a
  -- batch ends the thread.
  unfoldable pub send : ℕ → BatchMsg C → (ℕ → List (BatchMsg C)) → List (BatchMsg C)
  send zero msg next = []
  send (suc room) msg next = msg ∷ next room

  -- The last batch, unless it is empty, and `Done`; the result of that send is not looked at.
  unfoldable pub finish : ℕ → List C → List (BatchMsg C)
  finish room [] = send room BatchMsg.done (λ r. [])
  finish room (c ∷ cs) = send room (batch (c ∷ cs)) (λ r. send r BatchMsg.done (λ r'. []))

  -- What the thread sends. It waits for the first candidate of a batch just when the batch is empty,
  -- with a `recv` that has no timeout.
  unfoldable pub run_accumulator : ℕ → List (Received C) → List C → ℕ → List (BatchMsg C)
  run_accumulator batch_max [] cs room = finish room cs
  run_accumulator batch_max (message Msg.done ∷ events) cs room = finish room cs
  run_accumulator batch_max (message (candidate c) ∷ events) cs room =
      let more = cs ++ c ∷ [] in
      let filled = run_accumulator batch_max events more room in
      if ltb (length more) batch_max
      then filled
      else send room (batch more) (λ r. run_accumulator batch_max events [] r)
  run_accumulator batch_max (timeout ∷ events) [] room = run_accumulator batch_max events [] room
  run_accumulator batch_max (timeout ∷ events) (c ∷ cs) room =
      send room (batch (c ∷ cs)) (λ r. run_accumulator batch_max events [] r)
