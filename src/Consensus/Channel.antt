-- ===== src/Consensus/Channel.antt =====
-- consensus/communication.hpp, and the first loop of `Consensus::run` (consensus/consensus.cpp,
-- lines 44 to 49) among threads that send. A channel is its queue; the mutex makes each call one
-- step.
use mathlib.Core.List.{append_assoc, append-nil}
use dag_rider.Prelude.{
  ◌≡◌, refl, sym, ap, ◌∙◌, List, [], ◌∷◌, ◌++◌, Bool, true, false, Option, none, some,
}

-- The consensus thread in the first loop of `run`, or past it.
pub record Draining {ℓ} (A : Type ℓ) : Type ℓ where
  pub queue : List A
  pub buffer : List A
  pub in_first_loop : Bool

module _ {ℓ} {A : Type ℓ} where
  -- The outer `none`: the caller waits on the condition variable. The inner option is the
  -- std::optional returned.
  unfoldable pub receive : List A → Option (Option A × List A)
  receive [] = none
  receive (item ∷ queue) = some (some item, queue)

  unfoldable pub send : List A → A → List A
  send queue item = queue ++ item ∷ []

  -- A step of a sender or of the consensus thread; `sent` is what a sender put in.
  pub data Step (d e : Draining A) (sent : List A) : Type ℓ where
    arrive :
        (item : A) → sent ≡ item ∷ [] → e ≡ record d { queue = send d.queue item } → Step d e sent
    take :
        (item : A) (rest : List A)
        → sent ≡ []
        → d.in_first_loop ≡ true
        → receive d.queue ≡ some (some item, rest)
        → e ≡ record d { queue = rest; buffer = d.buffer ++ item ∷ [] }
        → Step d e sent
    leave :
        (rest : List A)
        → sent ≡ []
        → d.in_first_loop ≡ true
        → receive d.queue ≡ some (none, rest)
        → e ≡ record d { queue = rest; in_first_loop = false }
        → Step d e sent

  -- The schedules, with all that was sent.
  pub data Run (d : Draining A) : Draining A → List A → Type ℓ where
    start : Run d d []
    step :
        {e f : Draining A} {sent : List A} (more : List A)
        → Run d e sent
        → Step e f more
        → Run d f (sent ++ more)

  never_nullopt : (queue rest : List A) → receive queue ≡ some (none, rest) → ⊥
  unfolding receive
  never_nullopt [] rest e = cc
  never_nullopt (x ∷ queue) rest e = cc

  receive-front :
      (queue rest : List A) (item : A)
      → receive queue ≡ some (some item, rest)
      → queue ≡ item ∷ rest
  unfolding receive
  receive-front [] rest item e = cc
  receive-front (x ∷ queue) rest item e = cc

  Step-keeps :
      {d e : Draining A} {sent : List A}
      → Step d e sent
      → (e.in_first_loop ≡ d.in_first_loop) × (e.buffer ++ e.queue ≡ (d.buffer ++ d.queue) ++ sent)
  unfolding send
  Step-keeps {d} (arrive item what e) =
      rw (e, what) (refl, sym (append_assoc d.buffer d.queue (item ∷ [])))
  Step-keeps {d} (take item rest what inside got e) =
      rw (e, what)
        (
          refl,
          append_assoc d.buffer (item ∷ []) rest
              ∙ (ap (◌++◌ d.buffer) (sym (receive-front d.queue rest item got))
                  ∙ sym (append-nil _)),
        )
  Step-keeps {d} (leave rest what inside got e) = absurd (never_nullopt d.queue rest got)

  -- Whatever is sent and in whatever order the threads run, the consensus thread does not get past
  -- the first loop of `run`; and what it took and what waits are, in order, what was there and
  -- what was sent.
  pub first_loop_never_ends :
      {d e : Draining A} {sent : List A}
      → d.in_first_loop ≡ true
      → Run d e sent
      → (e.in_first_loop ≡ true) × (e.buffer ++ e.queue ≡ (d.buffer ++ d.queue) ++ sent)
  first_loop_never_ends {d} inside start = (inside, sym (append-nil _))
  first_loop_never_ends {d} inside (step {sent} more run next) =
      let (still, order) = first_loop_never_ends inside run in
      let kept = Step-keeps next in
      (
        kept.0 ∙ still,
        kept.1 ∙ (ap (λ l. l ++ more) order ∙ append_assoc (d.buffer ++ d.queue) sent more),
      )
