-- ===== src/Jobs/Tests.antt =====
-- The properties of the leader's lock at concrete inputs.
use finn_api_go.Prelude.{ℕ, ◌+◌, ◌≡◌, ◌≢◌, refl, String, eq_iff, true, List, [], ◌∷◌, All, arith}
use finn_api_go.Prelude.Dict.{lookup}
use finn_api_go.Store.{text, Entry, InMemoryStore, new_in_memory_store}
use finn_api_go.Store
use finn_api_go.Jobs.{LeaderRunner, owner_lock_manager, is_leader}
use finn_api_go.Jobs.Exclusive.{
  Move, claims, renews, releases, Held, InTerm, GrantsOnly, run, run_exclusive, is_leader-Held,
}

abbrev runner : LeaderRunner
runner = record {
  lock_key = "jobs:leader:purge";
  self = "a";
  lock_ttl = 30;
  capability = owner_lock_manager;
}

leads : (is_leader 5 5 6 runner new_in_memory_store).0 ≡ true
unfolding is_leader Store.set_nx lookup
leads = refl

abbrev after : InMemoryStore
after = (is_leader 5 5 6 runner new_in_memory_store).1

is_leader-Held_example : Held "jobs:leader:purge" "a" (5 + 30) after
is_leader-Held_example =
    is_leader-Held 5 5 6 runner new_in_memory_store refl (omega arith) (omega arith) leads

-- Another replica claims and releases; the leader renews.
abbrev moves : List (ℕ × Move)
moves = (10, claims "b") ∷ (12, renews "a") ∷ (14, releases "b") ∷ (35, claims "b") ∷ []

other : ◌≢◌ {A = String} "b" "a"
other e = ground (arith, eq_iff "b" "a")

moves-InTerm : InTerm "jobs:leader:purge" "a" 5 30 moves after
moves-InTerm = (
  omega arith,
  omega arith,
  tt,
  (
    omega arith,
    omega arith,
    tt,
    (omega arith, omega arith, other, (omega arith, omega arith, tt, tt)),
  ),
)

run_exclusive_example :
    All (GrantsOnly "a") (run "jobs:leader:purge" 30 moves after).0
    × Held "jobs:leader:purge" "a" (5 + 30) (run "jobs:leader:purge" 30 moves after).1
run_exclusive_example =
    run_exclusive "jobs:leader:purge" "a" 30 5 moves after is_leader-Held_example moves-InTerm
