-- ===== src/Transaction/Interleaved/Received.antt =====
-- Calls of `handle_transaction` that take turns (transaction/block_builder.cpp, lines 29 to 60): what
-- becomes of their transactions.
use mathlib.Core.List.{Perm, perm_append_singleton, append_assoc}
use mathlib.Core.List.Perm
use dag_rider.Prelude.{
  Perm-eq, ℕ, zero, suc, ◌≡◌, refl, sym, ap, ◌∙◌, List, [], ◌∷◌, ◌++◌, Bool, true, leb, length,
  Bool-cases, inl, inr,
}
use dag_rider.Model.External.{External}
use dag_rider.Model.Block.{Transaction}
use dag_rider.Model.Committee.{Endpoint}
use dag_rider.Network.Broadcaster.{Outcome}
use dag_rider.Network.Coroutines.{Coroutine, begun, connecting, writing, returned, resume}
use dag_rider.Transaction.{BlockBuilder, batch_size, send_block, handle_transaction}
use dag_rider.Transaction.Batches.{
  received, IsBatched, handle_transaction-received, handle_transaction-IsBatched,
}
use dag_rider.Transaction.Interleaved.{
  Call, fresh, sending, over, send_next, sent_on, begin_block, go_on, go_on_at, interleave, waiting,
}

Perm-front {ℓ} : {A : Type ℓ} (t : A) (xs ys : List A) → Perm (xs ++ t ∷ ys) (t ∷ (xs ++ ys))
Perm-front t xs ys =
    Perm.trans (Perm-eq (sym (append_assoc xs (t ∷ []) ys)))
      (Perm.append_right ys (perm_append_singleton t xs))

-- The same blocks and the same queue.
record IsAlike (b b' : BlockBuilder) : Type 0 where
  built : b'.built ≡ b.built
  queue : b'.transaction_queue ≡ b.transaction_queue

IsAlike-received : (b b' : BlockBuilder) → IsAlike b b' → received b' ≡ received b
unfolding received
IsAlike-received b b' s = rw (s.built, s.queue, received) refl

IsAlike-IsBatched : (b b' : BlockBuilder) → IsAlike b b' → IsBatched b → IsBatched b'
unfolding IsBatched
IsAlike-IsBatched b b' s h = rw (s.built, s.queue, IsBatched) h

-- What a call goes on to: nothing that has not begun, with these blocks and this queue.
record GoesTo (b : BlockBuilder) (result : Call × BlockBuilder) : Type 0 where
  begun_too :
      (store : ℕ → Transaction) (cs : List Call) → waiting store (result.0 ∷ cs) ≡ waiting store cs
  alike : IsAlike b result.1

send_next-GoesTo :
    (endpoints : List Endpoint) (text : List ℕ) (b : BlockBuilder)
    → GoesTo b (send_next endpoints text b)
unfolding send_next
send_next-GoesTo [] text b = record {
  begun_too = λ store cs. refl;
  alike = record { built = refl; queue = refl };
}
send_next-GoesTo (e ∷ endpoints) text b = record {
  begun_too = λ store cs. refl;
  alike = record { built = refl; queue = refl };
}

sent_on-GoesTo :
    (c : Coroutine) (endpoints : List Endpoint) (text : List ℕ) (b : BlockBuilder)
    → GoesTo b (sent_on c endpoints text b)
unfolding sent_on
sent_on-GoesTo returned endpoints text b = send_next-GoesTo endpoints text b
sent_on-GoesTo (begun e m) endpoints text b = record {
  begun_too = λ store cs. refl;
  alike = record { built = refl; queue = refl };
}
sent_on-GoesTo (connecting e m) endpoints text b = record {
  begun_too = λ store cs. refl;
  alike = record { built = refl; queue = refl };
}
sent_on-GoesTo (writing e m) endpoints text b = record {
  begun_too = λ store cs. refl;
  alike = record { built = refl; queue = refl };
}

-- Answers of the network; blocks and queue do not depend on them.
abbrev net : Endpoint → Outcome
net e = record { connects = true; writes = true }

module _ (ext : External) (dump : ext.Json → List ℕ) (store : ℕ → Transaction) where
  -- A call that begins does to blocks and queue what it does when no other call is there.
  begins-GoesTo :
      (ok : Bool) (t : ℕ) (b : BlockBuilder)
      → GoesTo (handle_transaction ext dump net b (store t)) (go_on ext dump store ok (fresh t) b)
  unfolding go_on handle_transaction send_block begin_block
  begins-GoesTo ok t b =
      elim (Bool-cases (leb batch_size (length (b.transaction_queue ++ store t ∷ [])))) [
        | inl full ↦
            let after = send_next-GoesTo _ _ _ in
            rw (full, go_on, handle_transaction)
              (record {
                begun_too = after.begun_too;
                alike = record { built = after.alike.built; queue = after.alike.queue };
              })
        | inr few ↦
            rw (few, go_on, handle_transaction)
              (record {
                begun_too = λ store cs. refl;
                alike = record { built = refl; queue = refl };
              })
      ]

  go_on-received :
      (ok : Bool) (c : Call) (b : BlockBuilder) (cs : List Call)
      → received (go_on ext dump store ok c b).1
          ++ waiting store ((go_on ext dump store ok c b).0 ∷ cs)
        ≡ received b ++ waiting store (c ∷ cs)
  unfolding go_on
  go_on-received ok (fresh t) b cs =
      let after = begins-GoesTo ok t b in
      ap (λ ts. received (go_on ext dump store ok (fresh t) b).1 ++ ts) (after.begun_too store cs)
      ∙ ap (λ ts. ts ++ waiting store cs)
          (IsAlike-received _ _ after.alike ∙ handle_transaction-received ext dump net b (store t))
      ∙ append_assoc (received b) (store t ∷ []) (waiting store cs)
  go_on-received ok (sending c endpoints text) b cs =
      let waited = resume ok c b.network in
      let b' : BlockBuilder = record b { network = waited.1 } in
      let after = sent_on-GoesTo waited.0 endpoints text b' in
      ap (λ ts. received (sent_on waited.0 endpoints text b').1 ++ ts) (after.begun_too store cs)
      ∙ ap (λ ts. ts ++ waiting store cs)
          (IsAlike-received b _ (record { built = after.alike.built; queue = after.alike.queue }))
  go_on-received ok over b cs = refl

  go_on-IsBatched :
      (ok : Bool) (c : Call) (b : BlockBuilder)
      → IsBatched b
      → IsBatched (go_on ext dump store ok c b).1
  unfolding go_on
  go_on-IsBatched ok (fresh t) b h =
      IsAlike-IsBatched _ _ (begins-GoesTo ok t b).alike
        (handle_transaction-IsBatched ext dump net b (store t) h)
  go_on-IsBatched ok (sending c endpoints text) b h =
      let waited = resume ok c b.network in
      let after = sent_on-GoesTo waited.0 endpoints text (record b { network = waited.1 }) in
      IsAlike-IsBatched b _ (record { built = after.alike.built; queue = after.alike.queue }) h
  go_on-IsBatched ok over b h = h

  -- Whose turn it is does not matter for what has been received or is still to begin.
  go_on_at-received :
      (i : ℕ) (ok : Bool) (cs : List Call) (b : BlockBuilder)
      → Perm
          (received (go_on_at ext dump store i ok cs b).1
            ++ waiting store (go_on_at ext dump store i ok cs b).0)
          (received b ++ waiting store cs)
  unfolding go_on_at
  go_on_at-received i ok [] b = Perm.refl _
  go_on_at-received zero ok (c ∷ cs) b = Perm-eq (go_on-received ok c b cs)
  go_on_at-received (suc i) ok (fresh t ∷ cs) b = Perm.trans (Perm-front (store t) _ _) (
      Perm.trans (Perm.append_left (store t ∷ []) (go_on_at-received i ok cs b))
        (Perm.symm (Perm-front (store t) (received b) (waiting store cs))))
  go_on_at-received (suc i) ok (sending c endpoints text ∷ cs) b = go_on_at-received i ok cs b
  go_on_at-received (suc i) ok (over ∷ cs) b = go_on_at-received i ok cs b

  go_on_at-IsBatched :
      (i : ℕ) (ok : Bool) (cs : List Call) (b : BlockBuilder)
      → IsBatched b
      → IsBatched (go_on_at ext dump store i ok cs b).1
  unfolding go_on_at
  go_on_at-IsBatched i ok [] b h = h
  go_on_at-IsBatched zero ok (c ∷ cs) b h = go_on-IsBatched ok c b h
  go_on_at-IsBatched (suc i) ok (c ∷ cs) b h = go_on_at-IsBatched i ok cs b h

  -- Whatever calls of handle_transaction take turns, however their waits end and in whatever order: the
  -- transactions of the blocks, those that wait in the queue and those that the calls which have not
  -- begun are to read through their references are, in some order, those from before. So nothing that a
  -- call reads is lost or put in two blocks, be it the transaction that the call was made with, if that
  -- lives until then, or what stands in its memory. And if it was so before, every block has exactly four
  -- and fewer than four wait.
  pub interleave-received :
      (schedule : List (ℕ × Bool)) (cs : List Call) (b : BlockBuilder)
      → Perm
          (received (interleave ext dump store schedule cs b).1
            ++ waiting store (interleave ext dump store schedule cs b).0)
          (received b ++ waiting store cs)
        × (IsBatched b → IsBatched (interleave ext dump store schedule cs b).1)
  unfolding interleave
  interleave-received [] cs b = (Perm.refl _, λ h. h)
  interleave-received ((i, ok) ∷ schedule) cs b =
      let now = go_on_at ext dump store i ok cs b in
      let (rest, later) = interleave-received schedule now.0 now.1 in
      (Perm.trans rest (go_on_at-received i ok cs b), λ h. later (go_on_at-IsBatched i ok cs b h))
