-- ===== src/Consensus/Protocol/Agreement.antt =====
-- Two nodes with the same vertices (consensus/consensus.cpp, lines 105 to 175): their unordered maps
-- may list validators and vertices in different orders.
use mathlib.Core.List.{Perm, perm_ext_iff_of_Nodup}
use mathlib.Core.List.Perm
use mathlib.Core.Logic.{∥∥₁_map}
use dag_rider.Prelude.{
  ℕ, zero, suc, ◌≡◌, refl, sym, ap, ◌∙◌, subst, inl, inr, ◌⊎◌, List, [], ◌∷◌, ◌++◌, Memᴰ, some,
  arith, some_eq, Option-cases,
}
use dag_rider.Model.Vertex.{Vertex}
use dag_rider.Consensus.Dag.{is_strongly_linked, is_linked_with_others_in_round}
use dag_rider.Consensus.Dag.SameGraph.{
  SameGraph, SameGraph-symm, HasUniqueHashes, bucket-mem, find-bucket, is_strongly_linked-same,
  LinkPath-same, is_linked_with_others_in_round-same, HasUniqueHashes-same,
}
use dag_rider.Consensus.Dag.Insertion.{IsWellFormed}
use dag_rider.Consensus.Protocol.{
  Consensus, Pointer, living, freed, read, max_wave, wave_before, get_round_for_wave, leader_key,
  get_wave_vertex_leader, leaders_loop, get_leaders_to_commit, order_vertices, get_ordered_vertices,
}
use dag_rider.Consensus.Protocol.Outcomes.{
  Waved, no_leader, too_few, decided, get_ordered_vertices-Waved,
}
use dag_rider.Consensus.Protocol.Leaders.{leader_key-perm}
use dag_rider.Consensus.Protocol.Delivery.{hashes, IsDistinct}
use dag_rider.Consensus.Protocol.Delivery.Exact.{CalledFor, order_vertices_exact}
use dag_rider.Consensus.Protocol.Distinct.{
  contains-mem, IsDistinct-Nodup, InGraph-bucket, bucket-InGraph,
}

-- The same validators and the same vertices, in graphs that are well formed and have no two
-- vertices of one hash; and freed vertices are read alike.
pub record SameNode (c d : Consensus) : Type 0 where
  pub committee : Perm c.committee d.committee
  pub graph : SameGraph c.state.dag d.state.dag
  pub formed : IsWellFormed c.state.dag
  pub formed' : IsWellFormed d.state.dag
  pub unique : HasUniqueHashes c.state.dag
  pub memory : c.memory c.state.current_round ≡ d.memory d.state.current_round

CalledFor-same :
    {c d : Consensus} (s : SameNode c d) (leaders : List Vertex) (v : Vertex)
    → CalledFor c.state.dag leaders v
    → CalledFor d.state.dag leaders v
CalledFor-same {c} {d} s leaders v q = record {
  leader = q.leader;
  among = q.among;
  in_graph =
      bucket-InGraph d.state.dag v q.in_graph.round q.in_graph.positive
        (bucket-mem s.graph q.in_graph.round v (InGraph-bucket c.state.dag v s.formed q.in_graph));
  newer = q.newer;
  path = LinkPath-same s.graph s.unique q.leader q.path;
}

pub SameNode-symm : {c d : Consensus} → SameNode c d → SameNode d c
SameNode-symm s = record {
  committee = Perm.symm s.committee;
  graph = SameGraph-symm s.graph;
  formed = s.formed';
  formed' = s.formed;
  unique = HasUniqueHashes-same s.graph s.unique;
  memory = sym s.memory;
}

order_vertices-mem :
    {c d : Consensus} (s : SameNode c d) (fuel fuel' : ℕ) (leaders out out' : List Vertex)
    → order_vertices fuel c leaders ≡ some out
    → order_vertices fuel' d leaders ≡ some out'
    → (v : Vertex) → Memᴰ v out
    → Memᴰ v out'
order_vertices-mem {c} {d} s fuel fuel' leaders out out' e e' v m =
    let (distinct, sound, complete) = order_vertices_exact fuel' d leaders out' e' in
    let q = CalledFor-same s leaders v ((order_vertices_exact fuel c leaders out e).1 v m) in
    let (w, n, hash) = contains-mem v.hash out' (complete v q) in
    let p = sound w n in
    let same =
      HasUniqueHashes-same s.graph s.unique p.in_graph.round q.in_graph.round w v
        (InGraph-bucket d.state.dag w s.formed' p.in_graph)
        (InGraph-bucket d.state.dag v s.formed' q.in_graph) hash in
    subst (λ x. Memᴰ x out') same n

order_vertices-perm :
    {c d : Consensus} (s : SameNode c d) (fuel fuel' : ℕ) (leaders out out' : List Vertex)
    → order_vertices fuel c leaders ≡ some out
    → order_vertices fuel' d leaders ≡ some out'
    → Perm out out'
order_vertices-perm {c} {d} s fuel fuel' leaders out out' e e' =
    (perm_ext_iff_of_Nodup (IsDistinct-Nodup out (order_vertices_exact fuel c leaders out e).0)
        (IsDistinct-Nodup out' (order_vertices_exact fuel' d leaders out' e').0)).1
      (λ v. (
        λ m. ∥∥₁_map m (order_vertices-mem s fuel fuel' leaders out out' e e' v),
        λ m. ∥∥₁_map m (order_vertices-mem (SameNode-symm s) fuel' fuel leaders out' out e' e v),
      ))

module _ {c d : Consensus} (s : SameNode c d) where
  leader-same : (wave : ℕ) → get_wave_vertex_leader c wave ≡ get_wave_vertex_leader d wave
  unfolding get_wave_vertex_leader
  leader-same wave =
      rw (leader_key-perm c.committee d.committee wave s.committee)
        (elim (Option-cases (leader_key d.committee wave)) [
          | inl n ↦ rw n refl
          | inr (k, e) ↦
              rw e (ap some (find-bucket s.graph (get_round_for_wave wave 1) k s.formed s.formed'))
        ])

  read-same : (leader : Pointer) (p : Vertex) → read c leader p ≡ read d leader p
  unfolding read
  read-same (living v) p = refl
  read-same (freed v) p = ap (λ (m : Vertex → Vertex → Vertex). m v p) s.memory

  leaders_loop-same :
      (fuel wave : ℕ) (leader : Pointer) (acc : List Vertex)
      → leaders_loop fuel c wave leader acc ≡ leaders_loop fuel d wave leader acc
  unfolding leaders_loop
  leaders_loop-same fuel zero leader acc = refl
  leaders_loop-same fuel (suc wave) leader acc =
      let stay = leaders_loop-same fuel wave leader acc in
      elim (Option-cases (get_wave_vertex_leader d (suc wave))) [
        | inl e ↦ ground (arith, leader-same (suc wave))
        | inr (o, e) ↦ elim (Option-cases o) [
          | inl nobody ↦ ground (arith, leader-same (suc wave), stay)
          | inr (p, someone) ↦ ground (
            arith,
            leader-same (suc wave),
            is_strongly_linked-same s.graph s.unique fuel (read c leader p) p
                ∙ ap (λ x. is_strongly_linked fuel d.state.dag x p) (read-same leader p),
            stay,
            leaders_loop-same fuel wave (freed p) (acc ++ p ∷ []),
          )
        ]
      ]

  commit-same :
      (fuel wave : ℕ) (leader : Vertex)
      → get_leaders_to_commit fuel c wave leader ≡ get_leaders_to_commit fuel d wave leader
  unfolding get_leaders_to_commit
  commit-same fuel wave leader = leaders_loop-same fuel wave (living leader) (leader ∷ [])

  enough-same :
      (fuel : ℕ) (leader : Vertex) (wave : ℕ)
      → is_linked_with_others_in_round fuel c.state.dag leader (get_round_for_wave wave max_wave)
        ≡ is_linked_with_others_in_round fuel d.state.dag leader (get_round_for_wave wave max_wave)
  enough-same fuel leader wave =
      is_linked_with_others_in_round-same s.graph s.unique fuel leader
        (get_round_for_wave wave max_wave)

  agree :
      (fuel wave : ℕ) (c' d' : Consensus) (out out' : List Vertex)
      → Waved fuel c wave c' out
      → Waved fuel d wave d' out'
      → Perm out out'
        × ((c' ≡ c) × (d' ≡ d) × (out ≡ [])
            ⊎ (c' ≡ record c { decided_wave = wave })
              × (d' ≡ record d { decided_wave = wave })
              × IsDistinct (hashes out))
  agree fuel wave c' d' out out' (no_leader a sc so) (no_leader b sd so') =
      (rw (so, so') Perm.nil, inl (sc, sd, so))
  agree fuel wave c' d' out out' (no_leader a sc so) (too_few l b f sd so') =
      cc (a, b, leader-same wave)
  agree fuel wave c' d' out out' (no_leader a sc so) (decided l ls b f g h sd) =
      cc (a, b, leader-same wave)
  agree fuel wave c' d' out out' (too_few l a f sc so) (no_leader b sd so') =
      cc (a, b, leader-same wave)
  agree fuel wave c' d' out out' (too_few l a f sc so) (too_few l' b f' sd so') =
      (rw (so, so') Perm.nil, inl (sc, sd, so))
  agree fuel wave c' d' out out' (too_few l a f sc so) (decided l' ls b f' g h sd) =
      cc (a, b, f, f', leader-same wave, enough-same fuel l wave)
  agree fuel wave c' d' out out' (decided l ls a f g h sc) (no_leader b sd so') =
      cc (a, b, leader-same wave)
  agree fuel wave c' d' out out' (decided l ls a f g h sc) (too_few l' b f' sd so') =
      cc (a, b, f, f', leader-same wave, enough-same fuel l wave)
  agree fuel wave c' d' out out' (decided l ls a f g h sc) (decided l' ls' b f' g' h' sd) =
      let leaders : l ≡ l' = some_eq (some_eq (sym a ∙ leader-same wave ∙ b)) in
      let chosen : ls ≡ ls' = some_eq (
        sym g
        ∙ commit-same fuel (wave_before wave) l
        ∙ ap (get_leaders_to_commit fuel d (wave_before wave)) leaders
        ∙ g') in
      (
        order_vertices-perm s fuel fuel ls out out' h
            (subst (λ x. order_vertices fuel d x ≡ some out') (sym chosen) h'),
        inr (sc, sd, (order_vertices_exact fuel c ls out h).0),
      )

  -- Two nodes of the same validators and the same vertices, listed in any order, in graphs that are well
  -- formed and have no two vertices of one hash, which read freed vertices alike, agree on every wave
  -- whose ordering returns at both: either neither decides the wave, and nothing is put out, or both
  -- decide it and put out the same vertices, each once, if in another order.
  pub get_ordered_vertices-agree :
      (fuel wave : ℕ) (c' d' : Consensus) (out out' : List Vertex)
      → get_ordered_vertices fuel c wave ≡ some (c', out)
      → get_ordered_vertices fuel d wave ≡ some (d', out')
      → Perm out out'
        × ((c' ≡ c) × (d' ≡ d) × (out ≡ [])
            ⊎ (c' ≡ record c { decided_wave = wave })
              × (d' ≡ record d { decided_wave = wave })
              × IsDistinct (hashes out))
  get_ordered_vertices-agree fuel wave c' d' out out' e e' =
      agree fuel wave c' d' out out' (get_ordered_vertices-Waved fuel c wave c' out e)
        (get_ordered_vertices-Waved fuel d wave d' out' e')
