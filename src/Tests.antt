-- ===== src/Tests.antt =====
-- Runs of the library and of the program at concrete inputs.
mod Samples
mod Library
mod Streams
mod Cipher
mod Program
mod Start
mod Checks
mod Suites
