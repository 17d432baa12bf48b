-- ===== src/Services/AsyncAudit/Drain.antt =====
-- The worker of internal/services/async_audit.go comes to its end.
use finn_api_go.Prelude.{◌≡◌, refl, ◌∙◌, Bool, true, false, List, [], ◌∷◌, arith}
use finn_api_go.Services.AsyncAudit.{
  Row, AsyncAuditWriter, flush, receive, finish, Step, received, stopped, finished, Reach, here,
  next,
}

prepend : {w v u : AsyncAuditWriter} → Step w v → Reach v u → Reach w u
prepend s here = next here s
prepend s (next r t) = next (prepend s r) t

-- What `receive` leaves alone, and the buffer after it.
receive-rest :
    (answers : List Bool) (r : Row) (rest : List Row) (w : AsyncAuditWriter)
    → let v = receive answers r rest w in
      (v.buffer ≡ rest)
      × (v.sync_mode ≡ w.sync_mode)
      × (v.draining ≡ w.draining)
      × (v.done ≡ w.done)
      × (v.senders ≡ w.senders)
unfolding receive flush
receive-rest answers r rest w =
    (ground arith, ground arith, ground arith, ground arith, ground arith)

-- The worker has written what it held and is gone, and the buffer is empty.
abbrev pub Ended : AsyncAuditWriter → AsyncAuditWriter → Type 0
Ended w v = (v.done ≡ true) × (v.buffer ≡ []) × (v.batch ≡ []) × (v.senders ≡ w.senders)

drains :
    (answers : List Bool) (b : List Row) (w : AsyncAuditWriter)
    → w.buffer ≡ b
    → w.sync_mode ≡ false
    → w.draining ≡ true
    → w.done ≡ false
    → (v : AsyncAuditWriter) × Reach w v × Ended w v
unfolding finish flush
drains answers [] w e on draining running =
    (finish answers w, next here (finished answers draining running e), (refl, e, refl, refl))
drains answers (r ∷ rest) w e on draining running =
    let kept = receive-rest answers r rest w in
    let (v, run, ended) =
      drains answers rest (receive answers r rest w) kept.0 (kept.1 ∙ on) (kept.2 ∙ draining)
        (kept.3 ∙ running) in
    (
      v,
      prepend (received answers r rest on running e) run,
      (ended.0, ended.1, ended.2, ended.3 ∙ kept.4),
    )

-- Once Close has been called, the worker of a writer with a buffer can come to its end from wherever
-- it is, whatever the answers of the repository are: there is a run to a state in which it is done,
-- with nothing left in the buffer or in its batch, and in which the callers under way still are.
pub close_drains :
    (answers : List Bool) (w : AsyncAuditWriter)
    → w.sync_mode ≡ false
    → w.closing ≡ true
    → w.done ≡ false
    → (v : AsyncAuditWriter) × Reach w v × Ended w v
close_drains answers w on closing running =
    let (v, run, ended) =
      drains answers w.buffer (record w { draining = true }) refl on refl running in
    (v, prepend (stopped closing) run, ended)
