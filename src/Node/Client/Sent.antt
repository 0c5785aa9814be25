-- ===== src/Node/Client/Sent.antt =====
-- What a client has sent (node/client.cpp), however its waits end.
use mathlib.Core.List.{append_assoc, append-nil}
use dag_rider.Prelude.{
  ℕ, zero, suc, ◌+◌, ◌≡◌, refl, sym, ap, ◌∙◌, List, [], ◌∷◌, ◌++◌, true, false, leb, if◌then◌else◌,
  arith, Bool-cases, inl, inr,
}
use dag_rider.Node.Client.{
  Client, Ended, Waiting, connecting, stopped, writing, create, do_send, send, complete, run,
}

-- A client of `send`, in this state.
abbrev pub client : Waiting → List (List ℕ) → Client
client waiting sent = record {
  transaction_count = 40;
  tx_size = 64;
  waiting = waiting;
  sent = sent;
}

-- What the writes that have ended wrote: all up to the first that failed, which is the last, and of no
-- more than so many.
unfoldable pub written : ℕ → List Ended → List (List ℕ)
written zero ends = []
written (suc left) [] = []
written (suc left) (end ∷ ends) =
    let more = written left ends in end.bytes ∷ (if end.ok then more else [])

-- What it waits for then, from the write of this number on, when so many are left.
unfoldable pub waits_after : ℕ → ℕ → List Ended → Waiting
waits_after count zero ends = stopped
waits_after count (suc left) [] = writing count
waits_after count (suc left) (end ∷ ends) =
    let later = waits_after (count + 1) left ends in if end.ok then later else stopped

run-stopped :
    (ends : List Ended) (sent : List (List ℕ))
    → run ends (client stopped sent) ≡ client stopped sent
unfolding run
run-stopped [] sent = refl
run-stopped (end ∷ ends) sent = run-stopped ends sent

-- From the point where the write of a number is about to be made.
run-do_send :
    (count left : ℕ) (ends : List Ended) (sent : List (List ℕ)) (waiting : Waiting)
    → count + left ≡ 40
    → run ends (do_send count (client waiting sent))
      ≡ client (waits_after count left ends) (sent ++ written left ends)
unfolding run do_send written waits_after complete
run-do_send count zero ends sent waiting e =
    let over : leb 40 count ≡ true = ground arith in
    rw (over, do_send) (run-stopped ends sent ∙ ap (client stopped) (sym (append-nil sent)))
run-do_send count (suc left) [] sent waiting e =
    let under : leb 40 count ≡ false = ground arith in
    rw (under, do_send) (ap (client (writing count)) (sym (append-nil sent)))
run-do_send count (suc left) (end ∷ ends) sent waiting e =
    let under : leb 40 count ≡ false = ground arith in
    let now = append_assoc sent (end.bytes ∷ []) in
    rw (under, do_send)
      (elim (Bool-cases end.ok) [
        | inl well ↦ rw well (
            run-do_send (count + 1) left ends (sent ++ end.bytes ∷ []) (writing count) (omega arith)
            ∙ ap (client (waits_after (count + 1) left ends)) (now (written left ends)))
        | inr failed ↦ rw failed (run-stopped ends (sent ++ end.bytes ∷ []))
      ])

-- However the waits end and whatever bytes the writes put on the socket: a client that is connected
-- makes at most 40 writes, one after the other. What it has sent is what each of them wrote, in order,
-- up to the first that failed, with what that one wrote; it waits for the write of the next number
-- exactly if none has failed and fewer than 40 have ended, and for nothing otherwise. One that is not
-- connected sends nothing.
pub run-sent :
    (connect : Ended) (ends : List Ended) (m n : ℕ)
    → run (connect ∷ ends) (send (create m n))
      ≡ (if connect.ok then client (waits_after 0 40 ends) (written 40 ends) else client stopped [])
unfolding run complete send
run-sent connect ends m n = elim (Bool-cases connect.ok) [
  | inl well ↦ rw (well, complete) (run-do_send 0 40 ends [] connecting refl)
  | inr failed ↦ rw (failed, complete) (run-stopped ends [])
]
