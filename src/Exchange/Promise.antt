-- ===== src/Exchange/Promise.antt =====
-- How many vertices pass the promise between the network and the consensus
-- (vertex/vertex_message_handler.cpp, lines 8 to 16).
use dag_rider.Prelude.{
  ℕ, suc, ◌<◌, ◌≡◌, refl, inl, inr, List, [], ◌∷◌, ◌++◌, Option, none, some, All, length,
  Option-cases, ap, ◌∙◌, ◌>>=◌,
}
use dag_rider.Model.External.{External}
use dag_rider.Model.Input.{Input}
use dag_rider.Model.Vertex.{Vertex}
use dag_rider.Model.Reading.{from_json}
use dag_rider.Exchange.{set_value, dispatch}
use dag_rider.Network.Receiver.{newline, handle_connection}
use dag_rider.Network.Receiver.Lines.{IsLine, stream, dispatch_all, handle_connection-stream}

module _ (ext : External) (input : Input ext) where
  open input use {parse}

  -- The vertex that a line is read as, if it is.
  unfoldable pub vertex_of : List ℕ → Option Vertex
  vertex_of line = do j ← parse (line ++ newline ∷ []); from_json ext input j

  set_once : (v : Vertex) (l : List ℕ) → dispatch ext input (some v) l ≡ none
  unfolding dispatch set_value
  set_once v l = elim (Option-cases (parse l)) [
    | inl n ↦ rw (n, dispatch) refl
    | inr (j, n) ↦
        rw (n, dispatch)
          (elim (Option-cases (from_json ext input j)) [
            | inl m ↦ rw m refl
            | inr (w, m) ↦ rw m refl
          ])
  ]

  dispatch_all-set :
      (v : Vertex) (ls : List (List ℕ)) → dispatch_all (dispatch ext input) (some v) ls ≡ some v
  unfolding dispatch_all
  dispatch_all-set v [] = refl
  dispatch_all-set v (l ∷ ls) = rw (set_once v (l ++ newline ∷ []), dispatch_all) refl

  dispatch_all-first :
      (l : List ℕ) (ls : List (List ℕ))
      → dispatch_all (dispatch ext input) none (l ∷ ls) ≡ vertex_of l
  unfolding dispatch_all dispatch set_value vertex_of
  dispatch_all-first l ls = elim (Option-cases (parse (l ++ newline ∷ []))) [
    | inl unparsed ↦ rw (unparsed, dispatch_all) refl
    | inr (j, parsed) ↦
        rw (parsed, dispatch_all)
          (elim (Option-cases (from_json ext input j)) [
            | inl unread ↦ rw unread refl
            | inr (v, read) ↦ rw read (dispatch_all-set v ls)
          ])
  ]

  -- Of the lines that a connection carries, the first alone can give a vertex to the promise. If the
  -- promise is not set, it is left with the vertex that the first line is read as, and unset if the line
  -- is read as none, whatever lines follow; if it is set already, it stays as it is.
  pub handle_connection-promise :
      (l : List ℕ) (ls : List (List ℕ)) (fuel : ℕ)
      → IsLine l
      → All IsLine ls
      → suc (length ls) < fuel
      → (handle_connection fuel (dispatch ext input) none (stream (l ∷ ls) []) ≡ some (vertex_of l))
        × ((w : Vertex)
            → handle_connection fuel (dispatch ext input) (some w) (stream (l ∷ ls) [])
              ≡ some (some w))
  handle_connection-promise l ls fuel line lines enough =
      let run = λ (promise : Option Vertex).
        handle_connection-stream (dispatch ext input) fuel promise (l ∷ ls) [] (line, lines) tt
          enough in
      (
        run none ∙ ap some (dispatch_all-first l ls),
        λ w. run (some w) ∙ ap some (dispatch_all-set w (l ∷ ls)),
      )
