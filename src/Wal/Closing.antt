-- ===== src/Wal/Closing.antt =====
-- `stop_flusher` and `truncate_wal` of src/wal_storage.rs, as one task sees them.
pub mod Kept
use async_wal_db.Prelude.{List, [], ◌∷◌, ◌++◌, Bool, true, false, Option, none, some, bytes_eq}
use async_wal_db.Prelude.Map
use async_wal_db.Errors.{WalError, Result, ok, err, panic, unfinished, codes}
use async_wal_db.Entry.{Bytes}
use async_wal_db.Frame.{Codec}
use async_wal_db.Wal.{WalStorage, Disk, Files, with_config, background, drain_and_flush, flush}

-- The rounds that the flusher still makes until it sees the flag.
unfoldable pub rounds : Codec → List (Option Disk) → WalStorage → WalStorage
rounds c [] w = w
rounds c (b ∷ bs) w = rounds c bs (background c b w)

-- `stored` tells if the handle of the flusher is there to be taken. The flusher ends with a drain,
-- whose error it only prints.
unfoldable pub stop_flusher :
    Codec → Bool → List (Option Disk) → Disk → WalStorage → WalStorage × Result (Unit {0})
unfolding rounds
stop_flusher c true bs disk w = ((drain_and_flush c disk (rounds c bs w)).0, ok tt)
stop_flusher c false bs disk w = (w, ok tt)

-- `format!("{}.old", self.path)`
abbrev pub old_path : WalStorage → Bytes
old_path w = w.path ++ codes ".old"

refuse_rename : WalError
refuse_rename = WalError.checkpoint (codes "Failed to rename WAL: ")

-- `renames` tells if the file system renames a file that is there. An older `.old` is replaced.
renamed : Bool → Bytes → WalStorage → Option Bytes → WalStorage × Result (Unit {0})
unfolding refuse_rename
renamed renames path w none = (w, err refuse_rename)
renamed false path w (some contents) = (w, err refuse_rename)
renamed true path w (some contents) = (
  with_config (Map.insert (old_path w) contents (Map.remove w.path w.files)) path w.max_queue_size,
  ok tt,
)

flushed : Bool → Bytes → WalStorage × Result (Unit {0}) → WalStorage × Result (Unit {0})
unfolding renamed
flushed renames path (w, ok u) = renamed renames path w (Map.get w.path w.files)
flushed renames path (w, err e) = (w, err e)
flushed renames path (w, panic) = (w, panic)
flushed renames path (w, unfinished) = (w, unfinished)

unfoldable pub truncate_wal :
    Codec → List (Option Disk) → Disk → Bool → Bytes → WalStorage → WalStorage × Result (Unit {0})
unfolding flushed
truncate_wal c bs disk renames path w = flushed renames path (flush c bs disk w)
