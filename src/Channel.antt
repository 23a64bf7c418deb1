-- ===== src/Channel.antt =====
-- channel.cpp: `HdcChannelBase`, the channels between the server and its clients.
pub mod Stream
pub mod Table
pub mod Life
mod Tests
