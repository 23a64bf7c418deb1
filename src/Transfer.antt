-- ===== src/Transfer.antt =====
-- transfer.cpp: `HdcTransferBase`, the transfer of files.
pub mod Block
pub mod File
pub mod Buffers
mod Tests
