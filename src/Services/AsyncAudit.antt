-- ===== src/Services/AsyncAudit.antt =====
-- internal/services/async_audit.go: the writer of audit rows behind a bounded buffer, over a
-- repository that is not durable itself (`durable` is nil).
-- `Record` looks at `closing` first and sends into the buffer later, so it is two steps here, and
-- those that are between the two are the `senders`. The worker is the steps of its two loops.
pub mod Conserved
pub mod Drain
mod Tests
use Prim.Native.Char.{Char, code}
use finn_api_go.Prelude.{
  ℕ, ◌+◌, ◌-◌, ◌==◌, ◌≡◌, String, Bool, true, false, not, ◌&&◌, ◌||◌, List, [], ◌∷◌, ◌++◌, ltb, leb,
  length, if◌then◌else◌,
}
use finn_api_go.Models.{AuditLog}

abbrev pub max_audit_detail : ℕ
max_audit_detail = 500

-- The bytes of a character in UTF-8, and of a text.
unfoldable pub rune_len : Char → ℕ
rune_len c =
    if ltb (code c) 0x80
    then 1
    else if ltb (code c) 0x800
    then 2
    else if ltb (code c) 0x10000
    then 3
    else 4

unfoldable pub byte_len : String → ℕ
byte_len String.[] = 0
byte_len (String.◌∷◌ c s) = rune_len c + byte_len s

-- The first n bytes, back to the last boundary of a character.
unfoldable pub cut_bytes : ℕ → String → String
cut_bytes n String.[] = ""
cut_bytes n (String.◌∷◌ c s) =
    let rest = cut_bytes (n - rune_len c) s in if leb (rune_len c) n then String.◌∷◌ c rest else ""

unfoldable pub truncate_detail : AuditLog → AuditLog
truncate_detail e =
    if leb (byte_len e.detail) max_audit_detail
    then e
    else record e { detail = cut_bytes max_audit_detail e.detail }

-- A row with the tenant that `Record` stamps on it.
abbrev pub Row : Type 0
Row = String × AuditLog

pub record AsyncAuditWriter : Type 0 where
  pub buffer_size : ℕ
  pub flush_batch : ℕ
  pub sync_mode : Bool
  pub buffer : List Row
  pub closing : Bool
  -- The worker: its batch, whether it has seen `stopCh`, whether it has closed `doneCh`.
  pub batch : List Row
  pub draining : Bool
  pub done : Bool
  -- The table's rows in the order of insertion, and `AuditDroppedEntries`.
  pub rows : List Row
  pub dropped : ℕ
  pub senders : List Row
  -- Rows that `repo.Record` could not write: it logs that and counts nothing.
  pub unwritten : ℕ

-- `NewAsyncAuditWriter`, at `BufferSize` and `FlushBatch`.
unfoldable pub new_async_audit_writer : ℕ → ℕ → AsyncAuditWriter
new_async_audit_writer size flush_batch = record {
  buffer_size = size;
  flush_batch = if flush_batch == 0 then 64 else flush_batch;
  sync_mode = size == 0;
  buffer = [];
  closing = false;
  batch = [];
  draining = false;
  done = false;
  rows = [];
  dropped = 0;
  senders = [];
  unwritten = 0;
}

-- `Record` up to the `select`; in the direct cases, whether the repository writes the row.
unfoldable pub record_entry : Bool → String → AuditLog → AsyncAuditWriter → AsyncAuditWriter
record_entry written tid e w =
    if w.sync_mode || w.closing
    then if written
      then record w { rows = w.rows ++ (tid, truncate_detail e) ∷ [] }
      else record w { unwritten = w.unwritten + 1 }
    else record w { senders = w.senders ++ (tid, truncate_detail e) ∷ [] }

-- The `select` of `Record`: a full buffer drops the row.
unfoldable pub send : Row → AsyncAuditWriter → AsyncAuditWriter
send r w =
    if ltb (length w.buffer) w.buffer_size
    then record w { buffer = w.buffer ++ r ∷ [] }
    else record w { dropped = w.dropped + 1 }

-- `BatchInsert` of the repository: up to the first row that is refused. The answers to the rows
-- come in turn; after the last of them every row is taken.
unfoldable pub batch_insert : List Bool → List Row → List Row
batch_insert answers [] = []
batch_insert [] (r ∷ rs) = r ∷ rs
batch_insert (a ∷ answers) (r ∷ rs) =
    let more = batch_insert answers rs in if a then r ∷ more else []

-- `flush`
unfoldable pub flush : List Bool → AsyncAuditWriter → AsyncAuditWriter
flush answers w =
    let inserted = batch_insert answers w.batch in
    record w {
      batch = [];
      rows = w.rows ++ inserted;
      dropped = w.dropped + (length w.batch - length inserted);
    }

-- The worker takes a row, in either loop.
unfoldable pub receive : List Bool → Row → List Row → AsyncAuditWriter → AsyncAuditWriter
receive answers r rest w =
    let taken : AsyncAuditWriter = record w { buffer = rest; batch = w.batch ++ r ∷ [] } in
    if leb w.flush_batch (length taken.batch) then flush answers taken else taken

-- `Close`, up to its wait: nothing in synchronous mode.
unfoldable pub close : AsyncAuditWriter → AsyncAuditWriter
close w = if w.sync_mode then w else record w { closing = true }

-- The end of `drainAndExit`.
unfoldable pub finish : List Bool → AsyncAuditWriter → AsyncAuditWriter
finish answers w = record (flush answers w) { done = true }

-- `Buffered`
unfoldable pub buffered : AsyncAuditWriter → ℕ
buffered w = if w.sync_mode then 0 else length w.buffer

-- One step of some goroutine. A synchronous writer has no worker.
pub data Step (w : AsyncAuditWriter) : AsyncAuditWriter → Type 0 where
  recorded : (written : Bool) (tid : String) (e : AuditLog) → Step w (record_entry written tid e w)
  sent :
      (before : List Row) (r : Row) (after : List Row)
      → w.senders ≡ before ++ r ∷ after
      → Step w (send r (record w { senders = before ++ after }))
  received :
      (answers : List Bool) (r : Row) (rest : List Row)
      → w.sync_mode ≡ false
      → w.done ≡ false
      → w.buffer ≡ r ∷ rest
      → Step w (receive answers r rest w)
  ticked :
      (answers : List Bool) → w.sync_mode ≡ false → w.draining ≡ false → Step w (flush answers w)
  closed : Step w (close w)
  stopped : w.closing ≡ true → Step w (record w { draining = true })
  finished :
      (answers : List Bool)
      → w.draining ≡ true
      → w.done ≡ false
      → w.buffer ≡ []
      → Step w (finish answers w)

pub data Reach (w : AsyncAuditWriter) : AsyncAuditWriter → Type 0 where
  here : Reach w w
  next : {v u : AsyncAuditWriter} → Reach w v → Step v u → Reach w u

abbrev pub calls_of : {w v : AsyncAuditWriter} → Step w v → ℕ
calls_of (recorded written tid e) = 1
calls_of _ = 0

-- How often `Record` has been called on the way.
unfoldable pub calls : {w v : AsyncAuditWriter} → Reach w v → ℕ
calls here = 0
calls (next r s) = calls_of s + calls r
