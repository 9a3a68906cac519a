-- ===== src/Lib.antt =====
-- The RDRAND library and its command line program.
--
-- librdrand fills buffers with the output of the RDRAND instruction; librdrand-aes encrypts such
-- output with AES in counter mode under keys that change after some bytes; rdrand-gen writes random
-- bytes to a file, in chunks that several threads fill.
--
-- Files and code:
--   Cpu: the steps that execute RDRAND once and rdrand_testSupport (src/librdrand.c, lines 91-269).
--     The processor is a parameter: a function from the number of an execution and the width of its
--     operand to the carry flag and the register. `Build` is how the library was compiled.
--   Retry: rdrand_get_uint16_retry, rdrand_get_uint32_retry, rdrand_get_uint64_retry. A number is
--     returned with its code and the number of executions so far. `Retry.Attempts` is the
--     description of a retry loop without return codes.
--   Memory: the bytes at addresses, with what the functions change (`Machine`).
--   Arrays, Bytes, Reseed: the functions that fill buffers (src/librdrand.c, lines 376-672 and
--     714-799). They call each other as the code does. `Arrays.Drawn` is the sequence of numbers that
--     they draw.
--   Fwrite: rdrand_fwrite (lines 674-712); the stream is a parameter.
--   Aes: AES_CFG and its operations (src/librdrand-aes.c). OpenSSL is a parameter (`OpenSsl`, with the
--     laws `IsLawful`: the lengths of what it gives), and so are the results of malloc for the two
--     arrays, of mlock and of munlock; the malloc of the single strings, which the code does not test,
--     is taken to succeed. Pointers into the arrays of keys and nonces are indices, so that they alias
--     the arrays as in the code; the strings that are given back to `free` are collected as they are
--     then. Two fields are not the program's: `context` says whether `en` is NULL, allocated or freed,
--     and `crashed` is set where the code divides by 0, writes through a pointer that is not set, or
--     frees a context twice. `IsReady` is the invariant of AES_CFG once keys are set, and `IsDefined`
--     adds that nothing undefined was done.
--   Gen: the program (src/rdrand-gen.c): its options (`Gen.Arguments`) and main (`Gen.Main`), the
--     configuration and its chunks (`Gen.Config`), the generation of the output (`Gen.Chunks`), a line
--     of the key file (`Gen.KeyFile`), and the file (`Gen.LoadKeys`), where `overrun` is set when a key
--     is stored behind the end of the 128 that the arrays have room for. getopt_long, strtod, strtoul,
--     fopen and fwrite are parameters.
--   Check: the unit tests (check_tests) as Boolean functions, true where no assertion fails, in the
--     build with STUB_RDRAND that they have: the tests of the library (`Check.Steps`, `Check.Arrays`,
--     `Check.Library`: check_rdrand.c), of AES_CFG and of the encrypted output (`Check.Keys`,
--     `Check.Output`, `Check.Cipher`: check_aes.c), of the options and of whole runs (`Check.Options`,
--     `Check.Runs`: check_rdrand-gen.c), and the program that the expected output is taken from
--     (`Check.Demo`: openssl-demo/aesctr.c). A local array lies at an address that is a parameter; what it and an
--     uninitialised variable hold is one too, and so is the build of the native steps. The modules
--     named Passes say which tests pass, and on what condition.
--   Prelude, Bits: shared names and lemmas. Tests: runs at concrete inputs.
--
-- Integers are natural numbers; an `int` is a `ℤ` of the library's own. Where an unsigned type can
-- wrap, the remainder by its power of two is written out. Loops recurse on the number of rounds that
-- are left, which the code computes before or bounds by a limit. Two loops have fuel: that of
-- generate_chunk, which may repeat a round, and runs for ever when `bytes` is 0 (the chunks, the
-- threads and two more are enough otherwise); and that of load_keys, which reads a character at least in
-- each round, so that the length of the file and one more is enough.
--
-- The threads of a round are run one after another. Not modelled are what only prints (memDump,
-- printTimer, print_version, print_available_methods) or is not called (time_diff), the measurements
-- under tests, and the build scripts. The stack is taken to hold every local array.
mod Prelude
pub mod Bits
pub mod Cpu
pub mod Retry
pub mod Memory
pub mod Arrays
pub mod Bytes
pub mod Reseed
pub mod Fwrite
pub mod Aes
pub mod Gen
pub mod Check
mod Tests
