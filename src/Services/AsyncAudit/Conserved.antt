-- ===== src/Services/AsyncAudit/Conserved.antt =====
-- No audit row disappears between Record and the table without being counted.
use finn_api_go.Prelude.{
  ℕ, ◌+◌, ◌≡◌, ◌≤◌, ◌<◌, String, true, false, List, [], ◌∷◌, ◌++◌, length, suc, Bool, ◌⊎◌,
  if◌then◌else◌, ◌==◌, length-append, arith, ap,
}
use finn_api_go.Models.{AuditLog}
use finn_api_go.Services.AsyncAudit.{
  Row, AsyncAuditWriter, new_async_audit_writer, record_entry, send, batch_insert, flush, receive,
  close, finish, Step, recorded, sent, received, ticked, closed, stopped, finished, Reach, here,
  next, calls, calls_of, truncate_detail,
}

-- The rows that are somewhere, or counted as dropped.
abbrev pub total : AsyncAuditWriter → ℕ
total w =
    length w.senders + length w.buffer + length w.batch + length w.rows + w.dropped + w.unwritten

batch_insert-length :
    (answers : List Bool) (rs : List Row) → length (batch_insert answers rs) ≤ length rs
unfolding batch_insert
batch_insert-length answers [] = omega arith
batch_insert-length [] (r ∷ rs) = omega arith
batch_insert-length (a ∷ answers) (r ∷ rs) = ground (arith, batch_insert-length answers rs)

flush-total : (answers : List Bool) (w : AsyncAuditWriter) → total (flush answers w) ≡ total w
unfolding flush
flush-total answers w = omega (
  arith,
  batch_insert-length answers w.batch,
  length-append w.rows (batch_insert answers w.batch),
)

record_entry-total :
    (written : Bool) (tid : String) (e : AuditLog) (w : AsyncAuditWriter)
    → total (record_entry written tid e w) ≡ suc (total w)
unfolding record_entry
record_entry-total written tid e w = ground (
  arith,
  length-append w.rows ((tid, truncate_detail e) ∷ []),
  length-append w.senders ((tid, truncate_detail e) ∷ []),
)

send-total : (r : Row) (w : AsyncAuditWriter) → total (send r w) ≡ suc (total w)
unfolding send
send-total r w = ground (arith, length-append w.buffer (r ∷ []))

receive-total :
    (answers : List Bool) (r : Row) (rest : List Row) (w : AsyncAuditWriter)
    → w.buffer ≡ r ∷ rest
    → total (receive answers r rest w) ≡ total w
unfolding receive
receive-total answers r rest w e =
    let taken : AsyncAuditWriter = record w { buffer = rest; batch = w.batch ++ r ∷ [] } in
    ground (arith, e, ap length e, length-append w.batch (r ∷ []), flush-total answers taken)

-- A batch is shorter than `flushBatch` between steps, and empty once the worker is done.
abbrev IsSound : ℕ → ℕ → AsyncAuditWriter → Type 0
IsSound size batch w =
    (w.buffer_size ≡ size)
    × (w.flush_batch ≡ batch)
    × (length w.buffer ≤ size)
    × (length w.batch < batch)
    × ((w.done ≡ false) ⊎ ((w.draining ≡ true) × (length w.batch ≡ 0)))

Step-total : {w v : AsyncAuditWriter} (s : Step w v) → total v ≡ calls_of s + total w
unfolding close finish
Step-total {w} (recorded written tid e) = omega (arith, record_entry-total written tid e w)
Step-total {w} (sent before r after e) =
    let left : AsyncAuditWriter = record w { senders = before ++ after } in
    ground (
      arith,
      send-total r left,
      ap length e,
      length-append before (r ∷ after),
      length-append before after,
    )
Step-total {w} (received answers r rest lax up e) = omega (arith, receive-total answers r rest w e)
Step-total {w} (ticked answers lax up) = omega (arith, flush-total answers w)
Step-total closed = ground arith
Step-total (stopped c) = omega arith
Step-total {w} (finished answers d up e) = omega (arith, flush-total answers w)

Step-IsSound :
    (size batch : ℕ) {w v : AsyncAuditWriter}
    → 0 < batch
    → IsSound size batch w
    → Step w v
    → IsSound size batch v
unfolding record_entry send flush receive close finish
Step-IsSound size batch {w} p i (recorded written tid e) = ground (arith, i)
Step-IsSound size batch {w} p i (sent before r after e) =
    ground (arith, i, length-append w.buffer (r ∷ []))
Step-IsSound size batch {w} p i (received answers r rest lax up e) =
    ground (arith, i, up, e, length-append w.batch (r ∷ []))
Step-IsSound size batch {w} p i (ticked answers lax up) = ground (arith, i, up)
Step-IsSound size batch p i closed = ground (arith, i)
Step-IsSound size batch p i (stopped c) = ground (arith, i)
Step-IsSound size batch p i (finished answers d up e) = ground (arith, i, d)

Reach-IsSound :
    (size batch : ℕ) {w v : AsyncAuditWriter}
    → 0 < batch
    → IsSound size batch w
    → Reach w v
    → IsSound size batch v
Reach-IsSound size batch p i here = i
Reach-IsSound size batch p i (next r s) =
    Step-IsSound size batch p (Reach-IsSound size batch p i r) s

Reach-total : {w v : AsyncAuditWriter} (r : Reach w v) → total v ≡ calls r + total w
unfolding calls
Reach-total here = omega arith
Reach-total (next r s) = omega (arith, Step-total s, Reach-total r)

abbrev batch_of : ℕ → ℕ
batch_of n = if n == 0 then 64 else n

new-IsSound : (size n : ℕ) → IsSound size (batch_of n) (new_async_audit_writer size n)
unfolding new_async_audit_writer
new-IsSound size n = ground arith

-- Whatever the order in which callers, the worker and Close act and whichever inserts fail, the calls
-- of Record are as many as the rows in the table, those counted as dropped, those that a direct
-- write of the repository has refused, those that wait in the buffer or in the worker's batch, and
-- those whose caller is about to send; the buffer holds `BufferSize` rows at most, and a batch is
-- smaller than `FlushBatch` (64 if it is 0) between steps.
pub audit_conserved :
    (size n : ℕ) {w : AsyncAuditWriter} (r : Reach (new_async_audit_writer size n) w)
    → (calls r
        ≡ length w.senders
          + length w.buffer
          + length w.batch
          + length w.rows
          + w.dropped
          + w.unwritten)
      × (length w.buffer ≤ size)
      × (length w.batch < batch_of n)
unfolding new_async_audit_writer
audit_conserved size n r =
    let i = Reach-IsSound size (batch_of n) (ground arith) (new-IsSound size n) r in
    (omega (arith, Reach-total r), ground (arith, i), ground (arith, i))

-- When the worker is done and no caller was under way, so that neither senders nor buffered rows are
-- left, every call of Record has put its row into the table, has been counted as dropped, or was
-- refused by a direct write of the repository.
pub audit_drained :
    (size n : ℕ) {w : AsyncAuditWriter} (r : Reach (new_async_audit_writer size n) w)
    → w.done ≡ true
    → w.senders ≡ []
    → w.buffer ≡ []
    → calls r ≡ length w.rows + w.dropped + w.unwritten
audit_drained size n r d e b =
    let i = Reach-IsSound size (batch_of n) (ground arith) (new-IsSound size n) r in
    ground (arith, i, d, e, b, (audit_conserved size n r).0)
