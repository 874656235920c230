-- ===== src/Tests.antt =====
-- The theorems at concrete inputs, and runs of the code.
mod Store
mod Ascii
mod Bus
mod Session
mod History
mod Coordinator
mod State
mod Http
mod Files
