-- ===== src/Jobs/Exclusive.antt =====
-- The lock of internal/jobs/leader.go excludes: steps of any number of replicas, interleaved call
-- by call.
use finn_api_go.Prelude.{
  ℕ, ◌+◌, ◌≤◌, ◌<◌, ◌≡◌, ◌≢◌, refl, String, str_eq, eq_iff, eq_refl, Bool, ◌&&◌, leb, true, false,
  Option, none, some, List, [], ◌∷◌, All, arith,
}
use finn_api_go.Prelude.Dict.{lookup, lookup-insert, lookup-erase}
use finn_api_go.Store.{Value, text, Entry, InMemoryStore, is_past, expired, expiry, sprint}
use finn_api_go.Store
use finn_api_go.Store.Refine.{Yields, step-Refines}
use finn_api_go.Store.Spec.{Call, step, spec_step}
use finn_api_go.Jobs.{LeaderRunner, owner_lock_manager, is_leader}

-- The single calls that replicas make on the lock, and what else reaches the store: a sweep, and
-- writes and deletes of other keys.
pub data Move : Type 0 where
  claims renews releases : String → Move
  sweeps : List (String × Entry) → Move
  writes : String → Value → ℕ → Move
  deletes : String → Move

-- Whether the call made its replica the leader, and the store after it.
unfoldable pub move : String → ℕ → ℕ → Move → InMemoryStore → Bool × InMemoryStore
move k ttl now (claims b) s = Store.set_nx now k s (text b) ttl
move k ttl now (renews b) s = Store.renew_if_owner now k s b ttl
move k ttl now (releases b) s = (false, (Store.delete_if_owner now k s b).1)
move k ttl now (sweeps order) s = (false, Store.sweep now order s)
move k ttl now (writes j v t) s = (false, Store.set now j s v t)
move k ttl now (deletes j) s = (false, Store.delete now j s)

abbrev lasts : ℕ → Option ℕ → Bool
lasts end none = true
lasts end (some until) = leb end until

-- The entry is a's claim, and stands up to `end` at least.
abbrev pub holds : String → ℕ → Option Entry → Bool
holds a end none = false
holds a end (some e) = str_eq (sprint e.value) a && lasts end e.exp

abbrev pub Held : String → String → ℕ → InMemoryStore → Type 0
Held k a end s = holds a end (lookup k s.entries) ≡ true

-- Everybody but a may do anything with the lock; a does not release it, and the other keys are
-- others.
abbrev pub Keeps : String → String → Move → InMemoryStore → Type 0
Keeps k a (releases b) s = b ≢ a
Keeps k a (sweeps order) s = Yields s.entries order
Keeps k a (writes j v t) s = j ≢ k
Keeps k a (deletes j) s = j ≢ k
Keeps k a _ s = Unit

module _ (k a : String) (ttl now end : ℕ) (s : InMemoryStore) (h : Held k a end s)
    (le : now ≤ end) where
  claims-Held :
      (b : String)
      → ((move k ttl now (claims b) s).0 ≡ false) × Held k a end (move k ttl now (claims b) s).1
  unfolding move Store.set_nx
  claims-Held b = ground arith

  renews-Held :
      (b : String)
      → (end ≤ now + ttl)
      → let (granted, s') = move k ttl now (renews b) s in
        (granted ≡ true → b ≡ a) × Held k a end s'
  unfolding move Store.renew_if_owner
  renews-Held b q = (grind (arith, eq_iff), grind (arith, lookup-insert, eq_refl, eq_iff))

  releases-Held : (b : String) → b ≢ a → Held k a end (move k ttl now (releases b) s).1
  unfolding move Store.delete_if_owner
  releases-Held b ne = grind (arith, eq_iff)

  writes-Held :
      (j : String) (v : Value) (t : ℕ) → j ≢ k → Held k a end (move k ttl now (writes j v t) s).1
  unfolding move Store.set
  writes-Held j v t ne = grind (arith, lookup-insert, eq_iff)

  deletes-Held : (j : String) → j ≢ k → Held k a end (move k ttl now (deletes j) s).1
  unfolding move Store.delete
  deletes-Held j ne = grind (arith, lookup-erase, eq_iff)

  sweeps-Held :
      (order : List (String × Entry))
      → Yields s.entries order
      → Held k a end (move k ttl now (sweeps order) s).1
  unfolding move step spec_step
  sweeps-Held order y =
      let seen =
        step-Refines now (Call.sweep order) s (λ j. lookup j s.entries) (λ t q j. refl) y in
      ground (arith, seen.1 now (omega arith) k)

-- What a run of calls has granted, and the store after it.
unfoldable pub run :
    String → ℕ → List (ℕ × Move) → InMemoryStore → List (Move × Bool) × InMemoryStore
run k ttl [] s = ([], s)
run k ttl ((now, mv) ∷ ms) s =
    let (granted, s') = move k ttl now mv s in
    let (grants, s'') = run k ttl ms s' in ((mv, granted) ∷ grants, s'')

-- Every call falls in the term that began at `start`, and leaves the lock to the others' devices.
abbrev pub InTerm : String → String → ℕ → ℕ → List (ℕ × Move) → InMemoryStore → Type 0
InTerm k a start ttl [] s = Unit
InTerm k a start ttl ((now, mv) ∷ ms) s =
    (start ≤ now)
    × (now ≤ start + ttl)
    × Keeps k a mv s
    × InTerm k a start ttl ms (move k ttl now mv s).1

abbrev pub GrantsOnly : String → Move × Bool → Type 0
GrantsOnly a (renews b, granted) = granted ≡ true → b ≡ a
GrantsOnly a (_, granted) = granted ≡ false

move-Held :
    (k a : String) (ttl now start : ℕ) (mv : Move) (s : InMemoryStore)
    → Held k a (start + ttl) s
    → start ≤ now
    → now ≤ start + ttl
    → Keeps k a mv s
    → GrantsOnly a (mv, (move k ttl now mv s).0) × Held k a (start + ttl) (move k ttl now mv s).1
unfolding move
move-Held k a ttl now start (claims b) s h p q w = claims-Held k a ttl now _ s h q b
move-Held k a ttl now start (renews b) s h p q w = renews-Held k a ttl now _ s h q b (omega arith)
move-Held k a ttl now start (releases b) s h p q w = (refl, releases-Held k a ttl now _ s h q b w)
move-Held k a ttl now start (sweeps o) s h p q w = (refl, sweeps-Held k a ttl now _ s h q o w)
move-Held k a ttl now start (writes j v t) s h p q w =
    (refl, writes-Held k a ttl now _ s h q j v t w)
move-Held k a ttl now start (deletes j) s h p q w = (refl, deletes-Held k a ttl now _ s h q j w)

-- While a replica's claim on the lock stands, and until its term ends or it releases the lock, no
-- call of any other replica makes that one the leader: of all claims and renewals, by whatever
-- replicas and in whatever order, mixed with sweeps and with work on other keys, none is granted
-- but renewals by the holder, and the holder still holds the lock at the end.
pub run_exclusive :
    (k a : String) (ttl start : ℕ) (ms : List (ℕ × Move)) (s : InMemoryStore)
    → Held k a (start + ttl) s
    → InTerm k a start ttl ms s
    → All (GrantsOnly a) (run k ttl ms s).0 × Held k a (start + ttl) (run k ttl ms s).1
unfolding run
run_exclusive k a ttl start [] s h t = (tt, h)
run_exclusive k a ttl start ((now, mv) ∷ ms) s h t =
    let one = move-Held k a ttl now start mv s h t.0 t.1 t.2 in
    let rest = run_exclusive k a ttl start ms (move k ttl now mv s).1 one.1 t.3 in
    ((one.0, rest.0), rest.1)

pub is_leader-Held :
    (now later last : ℕ) (r : LeaderRunner) (s : InMemoryStore)
    → r.capability ≡ owner_lock_manager
    → 0 < r.lock_ttl
    → now ≤ later
    → (is_leader now later last r s).0 ≡ true
    → Held r.lock_key r.self (now + r.lock_ttl) (is_leader now later last r s).1
unfolding is_leader Store.set_nx Store.renew_if_owner sprint
is_leader-Held now later last r s c p q h = grind (arith, lookup-insert, eq_refl, eq_iff)
