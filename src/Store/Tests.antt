-- ===== src/Store/Tests.antt =====
-- The properties of the store at concrete inputs.
use finn_api_go.Prelude.{ℕ, ◌≡◌, refl, true, false, none, some, List, [], ◌∷◌, arith}
use finn_api_go.Prelude.Dict.{lookup}
use finn_api_go.Store.{Value, int64, text, Entry, InMemoryStore, new_in_memory_store}
use finn_api_go.Store
use finn_api_go.Store.Spec.{Agree, Call, observe}
use finn_api_go.Store.Refine.{Fits}
use finn_api_go.Store.History.{run, spec_run, run_refines, IsHistory, SameReplies, end_time}

abbrev key : Entry
key = record { value = text "v"; exp = some 15 }

abbrev filled : InMemoryStore
filled = record { entries = ("k", key) ∷ []; stopped = false }

filled_yields : Fits (Call.sweep (filled.entries)) filled
unfolding lookup
filled_yields = (refl, tt)

-- A claim, a read after its end, a sweep, and a second claim.
abbrev calls : List (ℕ × Call)
calls =
    (5, Call.set_nx "k" (text "a") 10)
    ∷ (20, Call.get "k")
    ∷ (21, Call.sweep [])
    ∷ (21, Call.set_nx "k" (text "b") 10)
    ∷ []

calls-IsHistory : IsHistory 0 calls new_in_memory_store
calls-IsHistory = (omega arith, tt, (omega arith, tt, (omega arith, tt, (omega arith, tt, tt))))

run_refines_example :
    SameReplies calls (run calls new_in_memory_store).0 (spec_run calls (λ k. none)).0
    × Agree (end_time 0 calls) (run calls new_in_memory_store).1 (spec_run calls (λ k. none)).1
run_refines_example = run_refines 0 calls calls-IsHistory

new_empty : observe 5 new_in_memory_store "n" ≡ none
unfolding lookup
new_empty = refl

abbrev times : List ℕ
times = 6 ∷ 65 ∷ []

claimed : (Store.set_nx 5 "k" new_in_memory_store (text "a") 10).0 ≡ true
unfolding Store.set_nx lookup
claimed = refl

taken : (Store.take 5 "k" filled).0 ≡ some (text "v")
unfolding Store.take lookup
taken = refl
