-- ===== src/Store/Refine.antt =====
-- Each method of the in-memory store refines the map of Store/Spec.antt, and so does every history
-- of calls.
use finn_api_go.Prelude.{
  ℕ, ◌+◌, ◌≤◌, ◌≡◌, ◌∙◌, refl, String, eq_iff, none, some, List, [], ◌∷◌, All, arith,
}
use finn_api_go.Prelude.Dict.{lookup, erase, lookup-insert, lookup-erase}
use finn_api_go.Prelude.Int64.{Int64}
use finn_api_go.Store.{
  Value, int64, Entry, InMemoryStore, expired, expiry, current, collect_expired, delete_all,
}
use finn_api_go.Store
use finn_api_go.Store.Spec.{SpecMap, live, Agree, Call, step, spec_step, SameReply}

-- Both halves of what a call has to do.
abbrev pub Refines : ℕ → Call → InMemoryStore → SpecMap → Type 0
Refines now c s m =
    SameReply c (step now c s).0 (spec_step now c m).0
    × Agree now (step now c s).1 (spec_step now c m).1

module _ (now : ℕ) (k : String) (s : InMemoryStore) (m : SpecMap) (a : Agree now s m) where
  get-Refines : Refines now (Call.get k) s m
  unfolding step spec_step Store.get
  get-Refines = (
    ground (arith, a now (omega arith) k),
    λ t h j. ground (arith, a t h j, a now (omega arith) k, lookup-erase k j s.entries, eq_iff k j),
  )

  take-Refines : Refines now (Call.take k) s m
  unfolding step spec_step Store.take
  take-Refines = (
    ground (arith, a now (omega arith) k),
    λ t h j.
        ground
          (arith, a t h j, a t h k, a now (omega arith) k, lookup-erase k j s.entries, eq_iff k j),
  )

  delete-Refines : Refines now (Call.delete k) s m
  unfolding step spec_step Store.delete
  delete-Refines = (refl, λ t h j. ground (arith, a t h j, lookup-erase k j s.entries))

  set-Refines : (v : Value) (ttl : ℕ) → Refines now (Call.set k v ttl) s m
  unfolding step spec_step Store.set
  set-Refines v ttl = (
    refl,
    λ t h j.
        let e : Entry = record { value = v; exp = expiry now ttl } in
        ground (arith, a t h j, lookup-insert k j e s.entries),
  )

  set_nx-Refines : (v : Value) (ttl : ℕ) → Refines now (Call.set_nx k v ttl) s m
  unfolding step spec_step Store.set_nx
  set_nx-Refines v ttl = (
    ground (arith, a now (omega arith) k),
    λ t h j.
        let e : Entry = record { value = v; exp = expiry now ttl } in
        ground (arith, a t h j, a now (omega arith) k, lookup-insert k j e s.entries),
  )

  incr_by-Refines : (d : Int64) (ttl : ℕ) → Refines now (Call.incr_by k d ttl) s m
  unfolding step spec_step Store.incr_by
  incr_by-Refines d ttl = (
    ground (arith, a now (omega arith) k),
    λ t h j.
        let e : Entry = record { value = int64 d; exp = expiry now ttl } in
        grind (arith, a t h j, a now (omega arith) k, lookup-insert),
  )

  renew-Refines : (ttl : ℕ) → Refines now (Call.renew k ttl) s m
  unfolding step spec_step Store.renew
  renew-Refines ttl = (
    ground (arith, a now (omega arith) k),
    λ t h j. grind (arith, a t h j, a now (omega arith) k, lookup-insert),
  )

  renew_if_owner-Refines : (o : String) (ttl : ℕ) → Refines now (Call.renew_if_owner k o ttl) s m
  unfolding step spec_step Store.renew_if_owner
  renew_if_owner-Refines o ttl = (
    ground (arith, a now (omega arith) k),
    λ t h j. grind (arith, a t h j, a now (omega arith) k, lookup-insert),
  )

  delete_if_owner-Refines : (o : String) → Refines now (Call.delete_if_owner k o) s m
  unfolding step spec_step Store.delete_if_owner
  delete_if_owner-Refines o = (
    tt,
    λ t h j. ground (arith, a t h j, a now (omega arith) k, lookup-erase k j s.entries, eq_iff k j),
  )

abbrev Dead : ℕ → List (String × Entry) → String → Type 0
Dead t m k = live t (lookup k m) ≡ none

Dead-erase : (t : ℕ) (k j : String) (m : List (String × Entry)) → Dead t m j → Dead t (erase k m) j
Dead-erase t k j m d = ground (arith, lookup-erase k j m)

All-Dead-erase :
    (t : ℕ) (k : String) (ks : List String) (m : List (String × Entry))
    → All (Dead t m) ks
    → All (Dead t (erase k m)) ks
All-Dead-erase t k [] m d = tt
All-Dead-erase t k (j ∷ ks) m d = (Dead-erase t k j m d.0, All-Dead-erase t k ks m d.1)

-- Deleting dead keys shows to nobody.
live-delete_all :
    (t : ℕ) (ks : List String) (m : List (String × Entry)) (j : String)
    → All (Dead t m) ks
    → live t (lookup j (delete_all ks m)) ≡ live t (lookup j m)
unfolding delete_all
live-delete_all t [] m j d = refl
live-delete_all t (k ∷ ks) m j d = ground (
  arith,
  live-delete_all t ks (erase k m) j (All-Dead-erase t k ks m d.1),
  lookup-erase k j m,
  eq_iff k j,
  d.0,
)

-- The pairs that `range` yields are entries of the map.
abbrev pub Yields : List (String × Entry) → List (String × Entry) → Type 0
Yields m order = All (λ (p : String × Entry). lookup p.0 m ≡ some p.1) order

-- Every key collected has expired, and stays so.
collect_expired-Dead :
    (now t found : ℕ) (m order : List (String × Entry))
    → now ≤ t
    → Yields m order
    → All (Dead t m) (collect_expired now order found)
unfolding collect_expired
collect_expired-Dead now t found m [] h y = tt
collect_expired-Dead now t found m ((k, e) ∷ rest) h y = ground (
  arith,
  collect_expired-Dead now t (found + 1) m rest h y.1,
  collect_expired-Dead now t found m rest h y.1,
)

sweep-Refines :
    (now : ℕ) (order : List (String × Entry)) (s : InMemoryStore) (m : SpecMap)
    → Agree now s m
    → Yields s.entries order
    → Refines now (Call.sweep order) s m
unfolding step spec_step Store.sweep
sweep-Refines now order s m a y = (
  refl,
  λ t h j.
      live-delete_all t _ s.entries j (collect_expired-Dead now t 0 s.entries order h y) ∙ a t h j,
)

-- What a call assumes: a sweep goes through entries of the map, in any order.
abbrev pub Fits : Call → InMemoryStore → Type 0
Fits (Call.sweep order) s = Yields s.entries order
Fits _ s = Unit

-- Whatever the method, an in-memory store that agrees with a map of unexpired entries answers as
-- the map does (but for the Boolean of `DeleteIfOwner`, which reads no clock) and agrees with it
-- afterwards, from the time of the call on; a sweep, in any order of visiting, is no step at all.
pub step-Refines :
    (now : ℕ) (c : Call) (s : InMemoryStore) (m : SpecMap)
    → Agree now s m
    → Fits c s
    → Refines now c s m
step-Refines now (Call.get k) s m a f = get-Refines now k s m a
step-Refines now (Call.take k) s m a f = take-Refines now k s m a
step-Refines now (Call.delete k) s m a f = delete-Refines now k s m a
step-Refines now (Call.set k v ttl) s m a f = set-Refines now k s m a v ttl
step-Refines now (Call.set_nx k v ttl) s m a f = set_nx-Refines now k s m a v ttl
step-Refines now (Call.incr_by k d ttl) s m a f = incr_by-Refines now k s m a d ttl
step-Refines now (Call.renew k ttl) s m a f = renew-Refines now k s m a ttl
step-Refines now (Call.renew_if_owner k o ttl) s m a f = renew_if_owner-Refines now k s m a o ttl
step-Refines now (Call.delete_if_owner k o) s m a f = delete_if_owner-Refines now k s m a o
step-Refines now (Call.sweep order) s m a f = sweep-Refines now order s m a f
