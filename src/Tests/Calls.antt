-- ===== src/Tests/Calls.antt =====
-- The theorems on calls of a block builder that take turns, at the fifteen of src/transaction/main.cpp.
use mathlib.Core.List.{Perm}
use dag_rider.Prelude.{ℕ, ◌≡◌, refl, List, [], ◌∷◌, ◌++◌, Bool, true, false, length}
use dag_rider.Containers.Hashed
use dag_rider.Transaction.{BlockBuilder}
use dag_rider.Transaction
use dag_rider.Transaction.Batches.{received, IsBatched}
use dag_rider.Transaction.Interleaved.{interleave, simulate_transactions, waiting}
use dag_rider.Transaction.Interleaved.Received.{interleave-received}
use dag_rider.Tests.Samples.{plain, four}

abbrev builder : BlockBuilder
builder = Transaction.create four

-- The vector of `simulate_transactions` is gone; its memory reads as this.
abbrev freed : ℕ → List ℕ
freed i = i ∷ 0 ∷ []

-- Four calls make a block; while the fourth waits, four more make another.
abbrev schedule : List (ℕ × Bool)
schedule =
    (0, true)
    ∷ (2, true)
    ∷ (1, true)
    ∷ (4, true)
    ∷ (3, true)
    ∷ (4, true)
    ∷ (6, true)
    ∷ (5, true)
    ∷ (9, true)
    ∷ (4, false)
    ∷ []

-- Two blocks are made, of four transactions each.
two_blocks :
    length (interleave plain (λ j. j) freed schedule simulate_transactions builder).1.built ≡ 2
unfolding Transaction.create interleave simulate_transactions Hashed.insert
two_blocks = refl

interleave-received_example :
    Perm
      (received (interleave plain (λ j. j) freed schedule simulate_transactions builder).1
        ++ waiting freed (interleave plain (λ j. j) freed schedule simulate_transactions builder).0)
      (received builder ++ waiting freed simulate_transactions)
    × (IsBatched builder
        → IsBatched (interleave plain (λ j. j) freed schedule simulate_transactions builder).1)
interleave-received_example =
    interleave-received plain (λ j. j) freed schedule simulate_transactions builder
