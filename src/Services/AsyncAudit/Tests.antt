-- ===== src/Services/AsyncAudit/Tests.antt =====
-- The audit writer at concrete histories.
use finn_api_go.Prelude.{◌+◌, ◌≡◌, ◌≤◌, ◌<◌, refl, true, false, none, [], ◌∷◌}
use finn_api_go.Models.{AuditLog}
use finn_api_go.Services.AsyncAudit.{
  Row, AsyncAuditWriter, new_async_audit_writer, record_entry, send, receive, flush, close, finish,
  Step, recorded, sent, received, closed, stopped, finished, Reach, here, next, calls, byte_len,
  truncate_detail,
}
use finn_api_go.Services.AsyncAudit.Drain.{close_drains, Ended}
use finn_api_go.Services.AsyncAudit.Conserved.{audit_conserved}

abbrev entry : AuditLog
entry = record {
  user_id = none;
  email = "";
  event = "login";
  ip_address = "";
  success = true;
  detail = "";
}

abbrev row : Row
row = ("acme", entry)

abbrev opened : AsyncAuditWriter
opened = record {
  buffer_size = 1;
  flush_batch = 2;
  sync_mode = false;
  buffer = [];
  closing = false;
  batch = [];
  draining = false;
  done = false;
  rows = [];
  dropped = 0;
  senders = [];
  unwritten = 0;
}

-- Two calls and a buffer of one: the second row is dropped, and the worker writes the first.
run :
    Reach
      (new_async_audit_writer 1 2)
      (record opened { closing = true; draining = true; done = true; rows = row ∷ []; dropped = 1 })
unfolding new_async_audit_writer record_entry truncate_detail byte_len send receive flush close
    finish finn_api_go.Services.AsyncAudit.batch_insert
run =
    next
      (next
        (next
          (next
            (next
              (next (next (next here (recorded true "acme" entry)) (recorded true "acme" entry))
                (sent [] row (row ∷ []) refl))
              (sent [] row [] refl))
            (received [] row [] refl refl refl))
          closed)
        (stopped refl))
      (finished [] refl refl refl)

-- A caller that was past the look at `closing` sends after the worker has gone: its row stays in the
-- buffer for good, and is not counted as dropped.
late_sender :
    Reach
      (new_async_audit_writer 1 2)
      (record opened { closing = true; draining = true; done = true; buffer = row ∷ [] })
unfolding new_async_audit_writer record_entry truncate_detail byte_len send flush close finish
    finn_api_go.Services.AsyncAudit.batch_insert
late_sender =
    next
      (next (next (next (next here (recorded true "acme" entry)) closed) (stopped refl))
        (finished [] refl refl refl))
      (sent [] row [] refl)

audit_conserved_example : (calls run ≡ 0 + 0 + 0 + 1 + 1 + 0) × (0 ≤ 1) × (0 < 2)
audit_conserved_example = audit_conserved 1 2 run

-- A row waits in the buffer.
abbrev closing_writer : AsyncAuditWriter
closing_writer = record opened { buffer = row ∷ []; closing = true }

close_drains_example : (v : AsyncAuditWriter) × Reach closing_writer v × Ended closing_writer v
close_drains_example = close_drains (true ∷ []) closing_writer refl refl refl
