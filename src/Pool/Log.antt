-- ===== src/Pool/Log.antt =====
-- `impl WalFlusher for WalManager` (wal.rs).
use smol_db.Wal.Manager.{WalManager, flush_upto}
use smol_db.Pool.{WalFlusher}

instance abbrev pub wal_manager : WalFlusher WalManager
wal_manager = record { flush_upto = flush_upto }
