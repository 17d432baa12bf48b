-- ===== src/Store/History.antt =====
-- Histories of calls on the store of internal/store/store.go, in the order in which the mutex lets
-- them in.
use finn_api_go.Prelude.{ℕ, ◌≤◌, ◌≡◌, refl, List, [], ◌∷◌, none, arith}
use finn_api_go.Prelude.Dict.{lookup}
use finn_api_go.Store.{InMemoryStore, new_in_memory_store}
use finn_api_go.Store.Spec.{SpecMap, Agree, Call, Reply, step, spec_step, SameReply}
use finn_api_go.Store.Refine.{Refines, Fits, step-Refines}

-- The calls run one after another, each at its time.
pub run : List (ℕ × Call) → InMemoryStore → List Reply × InMemoryStore
run [] s = ([], s)
run ((now, c) ∷ cs) s = let (r, s') = step now c s in let (rs, s'') = run cs s' in (r ∷ rs, s'')

pub spec_run : List (ℕ × Call) → SpecMap → List Reply × SpecMap
spec_run [] m = ([], m)
spec_run ((now, c) ∷ cs) m =
    let (r, m') = spec_step now c m in let (rs, m'') = spec_run cs m' in (r ∷ rs, m'')

-- The clock does not run backwards, and every sweep goes through the entries of its moment.
abbrev pub IsHistory : ℕ → List (ℕ × Call) → InMemoryStore → Type 0
IsHistory start [] s = Unit
IsHistory start ((now, c) ∷ cs) s = (start ≤ now) × Fits c s × IsHistory now cs (step now c s).1

abbrev pub SameReplies : List (ℕ × Call) → List Reply → List Reply → Type 0
SameReplies [] rs rs' = (rs ≡ []) × (rs' ≡ [])
SameReplies (c ∷ cs) [] rs' = ⊥
SameReplies (c ∷ cs) (r ∷ rs) [] = ⊥
SameReplies (c ∷ cs) (r ∷ rs) (r' ∷ rs') = SameReply c.1 r r' × SameReplies cs rs rs'

abbrev pub end_time : ℕ → List (ℕ × Call) → ℕ
end_time start [] = start
end_time start ((now, c) ∷ cs) = end_time now cs

Agree-later : (a b : ℕ) (s : InMemoryStore) (m : SpecMap) → a ≤ b → Agree a s m → Agree b s m
Agree-later a b s m h g t le j = g t (omega arith) j

run_refines_from :
    (start : ℕ) (cs : List (ℕ × Call)) (s : InMemoryStore) (m : SpecMap)
    → Agree start s m
    → IsHistory start cs s
    → SameReplies cs (run cs s).0 (spec_run cs m).0
      × Agree (end_time start cs) (run cs s).1 (spec_run cs m).1
unfolding run spec_run
run_refines_from start [] s m a h = ((refl, refl), a)
run_refines_from start ((now, c) ∷ cs) s m a h =
    let one : Refines now c s m = step-Refines now c s m (Agree-later start now s m h.0 a) h.1 in
    let rest = run_refines_from now cs (step now c s).1 (spec_step now c m).1 one.1 h.2 in
    ((one.0, rest.0), rest.1)

-- Any history of calls on a new in-memory store, at times that do not run backwards and with
-- sweeps anywhere among them, is answered as a plain map of unexpired entries answers it (but for
-- the Boolean of `DeleteIfOwner`), and leaves a store that cannot be told from that map.
pub run_refines :
    (start : ℕ) (cs : List (ℕ × Call))
    → IsHistory start cs new_in_memory_store
    → SameReplies cs (run cs new_in_memory_store).0 (spec_run cs (λ k. none)).0
      × Agree (end_time start cs) (run cs new_in_memory_store).1 (spec_run cs (λ k. none)).1
unfolding lookup
run_refines start cs h =
    run_refines_from start cs new_in_memory_store (λ k. none) (λ t le j. refl) h
