-- ===== src/Uart.antt =====
-- uart.h and uart.cpp: the packages of the serial line, the cutting of data into packages, and the queue of
-- packages that wait to be sent or answered.
pub mod Head
pub mod Fragments
pub mod Queue
mod Tests
