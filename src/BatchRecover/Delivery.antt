-- ===== src/BatchRecover/Delivery.antt =====
-- The batches that the accumulator of scrub-rs/src/batch_recover.rs sends, against what it received.
use mathlib.Core.List.{append_assoc, append-nil}
use rotshield.Prelude.{
  ℕ, zero, suc, ◌+◌, ◌≤◌, ◌<◌, ◌≡◌, refl, sym, ap, subst, ltb, Bool-cases, inl, inr, List, [], ◌∷◌,
  ◌++◌, length, All, map, arith,
}
use rotshield.BatchRecover.{
  Msg, candidate, BatchMsg, batch, Received, message, timeout, send, finish, run_accumulator,
}

module _ {ℓ} {C : Type ℓ} where
  -- The candidates that arrive before `Done` or the disconnection.
  abbrev pub arrived : List (Received C) → List C
  arrived [] = []
  arrived (message Msg.done ∷ events) = []
  arrived (message (candidate c) ∷ events) = c ∷ arrived events
  arrived (timeout ∷ events) = arrived events

  abbrev pub flatten : List (List C) → List C
  flatten [] = []
  flatten (b ∷ bs) = b ++ flatten bs

  -- Batches that are not empty and not over the limit, which make up the candidates in order, and
  -- then `Done`.
  abbrev pub Delivers : ℕ → List C → List (BatchMsg C) → Type ℓ
  Delivers batch_max wanted sent =
      (bs : List (List C)) × (sent ≡ map batch bs ++ BatchMsg.done ∷ [])
      × (flatten bs ≡ wanted)
      × All (λ b. (1 ≤ length b) × (length b ≤ batch_max)) bs

  length-snoc : (cs : List C) (c : C) → length (cs ++ c ∷ []) ≡ suc (length cs)
  length-snoc [] c = refl
  length-snoc (d ∷ cs) c = ap suc (length-snoc cs c)

  batch-Delivers :
      (batch_max : ℕ) (b wanted : List C) (sent : List (BatchMsg C))
      → 1 ≤ length b
      → length b ≤ batch_max
      → Delivers batch_max wanted sent
      → Delivers batch_max (b ++ wanted) (batch b ∷ sent)
  batch-Delivers batch_max b wanted sent some_in fits (bs, e, f, sizes) =
      (b ∷ bs, ap (λ t. batch b ∷ t) e, ap (λ t. b ++ t) f, ((some_in, fits), sizes))

  finish-Delivers :
      (batch_max : ℕ) (cs : List C) (room : ℕ)
      → length cs < batch_max
      → 2 ≤ room
      → Delivers batch_max cs (finish room cs)
  unfolding finish send
  finish-Delivers batch_max [] zero fits enough = absurd (omega arith)
  finish-Delivers batch_max [] (suc room) fits enough = ([], refl, refl, tt)
  finish-Delivers batch_max (c ∷ cs) zero fits enough = absurd (omega arith)
  finish-Delivers batch_max (c ∷ cs) (suc zero) fits enough = absurd (omega arith)
  finish-Delivers batch_max (c ∷ cs) (suc (suc room)) fits enough =
      ((c ∷ cs) ∷ [], refl, append-nil (c ∷ cs), ((omega arith, omega arith), tt))

  send-Delivers :
      (batch_max room : ℕ) (b wanted : List C) (next : ℕ → List (BatchMsg C))
      → 1 ≤ length b
      → length b ≤ batch_max
      → 1 ≤ room
      → ((r : ℕ) → suc r ≡ room → Delivers batch_max wanted (next r))
      → Delivers batch_max (b ++ wanted) (send room (batch b) next)
  unfolding send
  send-Delivers batch_max zero b wanted next some_in fits enough h = absurd (omega arith)
  send-Delivers batch_max (suc room) b wanted next some_in fits enough h =
      batch-Delivers batch_max b wanted (next room) some_in fits (h room refl)

  -- If the batch in hand is below the limit and the writer takes as many sends as there are events
  -- and two more, the accumulator sends batches of at least one candidate and at most the limit,
  -- which are together the batch in hand and the candidates that arrive before `Done` or the
  -- disconnection, in their order, each once, and then `Done`.
  pub run_accumulator-Delivers :
      (batch_max : ℕ) (events : List (Received C)) (cs : List C) (room : ℕ)
      → length cs < batch_max
      → length events + 2 ≤ room
      → Delivers batch_max (cs ++ arrived events) (run_accumulator batch_max events cs room)
  unfolding run_accumulator
  run_accumulator-Delivers batch_max [] cs room fits enough =
      subst (λ (t : List C). Delivers batch_max t (finish room cs)) (sym (append-nil cs))
        (finish-Delivers batch_max cs room fits (omega arith))
  run_accumulator-Delivers batch_max (message Msg.done ∷ events) cs room fits enough =
      subst (λ (t : List C). Delivers batch_max t (finish room cs)) (sym (append-nil cs))
        (finish-Delivers batch_max cs room fits (omega arith))
  run_accumulator-Delivers batch_max (message (candidate c) ∷ events) cs room fits enough =
      rw (← append_assoc cs (c ∷ []) (arrived events))
        (elim (Bool-cases (ltb (length (cs ++ c ∷ [])) batch_max)) [
          | inl below ↦ rw below (
              run_accumulator-Delivers batch_max events (cs ++ c ∷ []) room (ground arith)
                (omega arith))
          | inr full ↦ rw full (
              send-Delivers batch_max room (cs ++ c ∷ []) (arrived events) _ (omega (arith, size))
                (omega (arith, size)) (omega arith)
                (λ r e. run_accumulator-Delivers batch_max events [] r (omega arith) (omega arith)))
        ])
    where
      size : length (cs ++ c ∷ []) ≡ suc (length cs)
      size = length-snoc cs c
  run_accumulator-Delivers batch_max (timeout ∷ events) [] room fits enough =
      run_accumulator-Delivers batch_max events [] room fits (omega arith)
  run_accumulator-Delivers batch_max (timeout ∷ events) (c ∷ cs) room fits enough =
      send-Delivers batch_max room (c ∷ cs) (arrived events) _ (omega arith) (omega arith)
        (omega arith)
        (λ r e. run_accumulator-Delivers batch_max events [] r (omega arith) (omega arith))
