-- ===== src/Tar.antt =====
-- header.h and header.cpp: the headers of the tar files in which the tool sends directories.
pub mod Header
pub mod Entry
pub mod Archive
mod Tests
