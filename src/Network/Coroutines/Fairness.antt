-- ===== src/Network/Coroutines/Fairness.antt =====
-- How often a coroutine goes on until it returns (network/broadcaster.cpp, lines 12 to 43).
use dag_rider.Prelude.{
  ℕ, zero, suc, ◌+◌, ◌-◌, ◌≤◌, ◌<◌, ◌≡◌, refl, ap, ◌∙◌, List, [], ◌∷◌, Bool, Option, none, some,
  arith, All, if◌then◌else◌, ◌==◌, Option-cases, subst, inl, inr, length, length-append,
}
use dag_rider.Containers.{find}
use dag_rider.Model.Committee.{Endpoint}
use dag_rider.Network.Broadcaster.{Broadcaster}
use dag_rider.Network.Coroutines.{
  Coroutine, begun, connecting, writing, returned, deliver, resume, resume_at, run_all,
}

-- The most often that a coroutine goes on.
abbrev rank : Coroutine → ℕ
rank (begun e message) = 3
rank (connecting e message) = 2
rank (writing e message) = 1
rank returned = 0

resume-rank : (ok : Bool) (c : Coroutine) (b : Broadcaster) → rank (resume ok c b).0 ≤ rank c - 1
unfolding resume
resume-rank ok (begun e message) b = elim (Option-cases (find e.address b.connections)) [
  | inl unknown ↦ rw (unknown, resume) (omega arith)
  | inr (socket, known) ↦ rw (known, resume) (omega arith)
]
resume-rank ok (connecting e message) b = ground arith
resume-rank ok (writing e message) b = elim (Option-cases (find e.address b.connections)) [
  | inl unknown ↦ rw (unknown, resume) (omega arith)
  | inr (socket, known) ↦ rw (known, resume) (omega arith)
]
resume-rank ok returned b = omega arith

-- The coroutines, numbered from `i` on, go on at most `f` of the number times.
abbrev IsWithin : (ℕ → ℕ) → ℕ → List Coroutine → Type 0
IsWithin f i [] = Unit
IsWithin f i (c ∷ cs) = (rank c ≤ f i) × IsWithin f (suc i) cs

-- One time less for one of them.
abbrev spend : ℕ → (ℕ → ℕ) → ℕ → ℕ
spend i f j = if i == j then f j - 1 else f j

IsWithin-above :
    (f : ℕ → ℕ) (i j : ℕ) (cs : List Coroutine)
    → i < j
    → IsWithin f j cs
    → IsWithin (spend i f) j cs
IsWithin-above f i j [] lt h = tt
IsWithin-above f i j (c ∷ cs) lt h = (ground arith, IsWithin-above f i (suc j) cs (omega arith) h.1)

resume_at-IsWithin :
    (f : ℕ → ℕ) (i k : ℕ) (ok : Bool) (cs : List Coroutine) (b : Broadcaster)
    → IsWithin f k cs
    → IsWithin (spend (k + i) f) k (resume_at i ok cs b).0
unfolding resume_at
resume_at-IsWithin f zero k ok [] b h = tt
resume_at-IsWithin f (suc i) k ok [] b h = tt
resume_at-IsWithin f zero k ok (c ∷ cs) b h =
    (ground (arith, resume-rank ok c b), IsWithin-above f (k + 0) (suc k) cs (omega arith) h.1)
resume_at-IsWithin f (suc i) k ok (c ∷ cs) b h =
    let rest = resume_at-IsWithin f i (suc k) ok cs b h.1 in
    (
      ground arith,
      subst (λ j. IsWithin (spend j f) (suc k) (resume_at i ok cs b).0) (omega arith) rest,
    )

IsWithin-weak :
    (f g : ℕ → ℕ) (i : ℕ) (cs : List Coroutine)
    → ((j : ℕ) → f j ≤ g j)
    → IsWithin f i cs
    → IsWithin g i cs
IsWithin-weak f g i [] le h = tt
IsWithin-weak f g i (c ∷ cs) le h = (omega (arith, le i), IsWithin-weak f g (suc i) cs le h.1)

-- How often a schedule names a coroutine.
unfoldable pub turns : ℕ → List (ℕ × Bool) → ℕ
turns i [] = 0
turns i ((j, ok) ∷ schedule) = let rest = turns i schedule in if j == i then suc rest else rest

spend-turns :
    (f : ℕ → ℕ) (i j : ℕ) (ok : Bool) (schedule : List (ℕ × Bool))
    → spend i f j - turns j schedule ≤ f j - turns j ((i, ok) ∷ schedule)
unfolding turns
spend-turns f i j ok schedule = ground arith

run_all-IsWithin :
    (f : ℕ → ℕ) (schedule : List (ℕ × Bool)) (cs : List Coroutine) (b : Broadcaster)
    → IsWithin f 0 cs
    → IsWithin (λ j. f j - turns j schedule) 0 (run_all schedule cs b).0
unfolding run_all turns
run_all-IsWithin f [] cs b h = IsWithin-weak f _ 0 cs (λ j. omega arith) h
run_all-IsWithin f ((i, ok) ∷ schedule) cs b h =
    IsWithin-weak _ _ 0 _ (λ j. spend-turns f i j ok schedule)
      (run_all-IsWithin (spend i f) schedule (resume_at i ok cs b).0 (resume_at i ok cs b).1 (
        subst (λ j. IsWithin (spend j f) 0 (resume_at i ok cs b).0) (omega arith)
          (resume_at-IsWithin f i 0 ok cs b h)))

length-resume_at :
    (i : ℕ) (ok : Bool) (cs : List Coroutine) (b : Broadcaster)
    → length (resume_at i ok cs b).0 ≡ length cs
unfolding resume_at
length-resume_at zero ok [] b = refl
length-resume_at (suc i) ok [] b = refl
length-resume_at zero ok (c ∷ cs) b = refl
length-resume_at (suc i) ok (c ∷ cs) b = ap suc (length-resume_at i ok cs b)

length-run_all :
    (schedule : List (ℕ × Bool)) (cs : List Coroutine) (b : Broadcaster)
    → length (run_all schedule cs b).0 ≡ length cs
unfolding run_all
length-run_all [] cs b = refl
length-run_all ((i, ok) ∷ schedule) cs b =
    length-run_all schedule (resume_at i ok cs b).0 (resume_at i ok cs b).1
    ∙ length-resume_at i ok cs b

rank-returned : (c : Coroutine) → rank c ≤ 0 → c ≡ returned
rank-returned (begun e message) h = absurd (omega arith)
rank-returned (connecting e message) h = absurd (omega arith)
rank-returned (writing e message) h = absurd (omega arith)
rank-returned returned h = refl

IsWithin-returned :
    (f : ℕ → ℕ) (k : ℕ) (cs : List Coroutine)
    → ((i : ℕ) → k ≤ i → i < k + length cs → f i ≡ 0)
    → IsWithin f k cs
    → All (λ c. c ≡ returned) cs
IsWithin-returned f k [] none_left h = tt
IsWithin-returned f k (c ∷ cs) none_left h =
    let here = none_left k (omega arith) (omega arith) in
    (
      rank-returned c (omega arith),
      IsWithin-returned f (suc k) cs (λ i ge lt. none_left i (omega arith) (omega arith)) h.1,
    )

ranks : (k : ℕ) (cs : List Coroutine) → IsWithin (λ _. 3) k cs
ranks k [] = tt
ranks k (begun e message ∷ cs) = (omega arith, ranks (suc k) cs)
ranks k (connecting e message ∷ cs) = (omega arith, ranks (suc k) cs)
ranks k (writing e message ∷ cs) = (omega arith, ranks (suc k) cs)
ranks k (returned ∷ cs) = (omega arith, ranks (suc k) cs)

-- The coroutines that have not returned.
abbrev pub pending : List Coroutine → ℕ
pending [] = 0
pending (returned ∷ cs) = pending cs
pending (_ ∷ cs) = suc (pending cs)

deliver-written :
    (ok : Bool) (socket : Option Endpoint) (message : List ℕ) (b : Broadcaster)
    → length (deliver ok socket message b).written ≤ suc (length b.written)
unfolding deliver
deliver-written ok none message b = omega arith
deliver-written ok (some peer) message b =
    ground (arith, length-append b.written ((peer, message) ∷ []))

resume-pending :
    (ok : Bool) (c : Coroutine) (cs : List Coroutine) (b : Broadcaster)
    → length (resume ok c b).1.written + pending ((resume ok c b).0 ∷ cs)
      ≤ length b.written + pending (c ∷ cs)
unfolding resume
resume-pending ok (begun e message) cs b = elim (Option-cases (find e.address b.connections)) [
  | inl unknown ↦ rw (unknown, resume) (omega arith)
  | inr (socket, known) ↦ rw (known, resume) (omega arith)
]
resume-pending ok (connecting e message) cs b = ground arith
resume-pending ok (writing e message) cs b = elim (Option-cases (find e.address b.connections)) [
  | inl unknown ↦ rw (unknown, resume) (omega arith)
  | inr (socket, known) ↦ rw (known, resume) (omega (arith, deliver-written ok socket message b))
]
resume-pending ok returned cs b = omega arith

pending-cons :
    (c : Coroutine) (cs : List Coroutine) → pending (c ∷ cs) ≡ pending (c ∷ []) + pending cs
pending-cons (begun e message) cs = omega arith
pending-cons (connecting e message) cs = omega arith
pending-cons (writing e message) cs = omega arith
pending-cons returned cs = omega arith

resume_at-pending :
    (i : ℕ) (ok : Bool) (cs : List Coroutine) (b : Broadcaster)
    → length (resume_at i ok cs b).1.written + pending (resume_at i ok cs b).0
      ≤ length b.written + pending cs
unfolding resume_at
resume_at-pending zero ok [] b = omega arith
resume_at-pending (suc i) ok [] b = omega arith
resume_at-pending zero ok (c ∷ cs) b = resume-pending ok c cs b
resume_at-pending (suc i) ok (c ∷ cs) b =
    omega (
      arith,
      resume_at-pending i ok cs b,
      pending-cons c cs,
      pending-cons c (resume_at i ok cs b).0,
    )

run_all-pending :
    (schedule : List (ℕ × Bool)) (cs : List Coroutine) (b : Broadcaster)
    → length (run_all schedule cs b).1.written + pending (run_all schedule cs b).0
      ≤ length b.written + pending cs
unfolding run_all
run_all-pending [] cs b = omega arith
run_all-pending ((i, ok) ∷ schedule) cs b = omega (
  arith,
  resume_at-pending i ok cs b,
  run_all-pending schedule (resume_at i ok cs b).0 (resume_at i ok cs b).1,
)

-- Under any schedule that lets each coroutine go on three times or more, whatever the waits end with,
-- all return; and no more is written than there were coroutines that had not returned.
pub run_all-returned :
    (schedule : List (ℕ × Bool)) (cs : List Coroutine) (b : Broadcaster)
    → ((i : ℕ) → i < length cs → 3 ≤ turns i schedule)
    → All (λ c. c ≡ returned) (run_all schedule cs b).0
      × (length (run_all schedule cs b).1.written ≤ length b.written + pending cs)
run_all-returned schedule cs b fair = (
  IsWithin-returned (λ j. 3 - turns j schedule) 0 (run_all schedule cs b).0
      (λ i ge lt. omega (arith, fair i (omega (arith, length-run_all schedule cs b))))
      (run_all-IsWithin (λ _. 3) schedule cs b (ranks 0 cs)),
  omega (arith, run_all-pending schedule cs b),
)
