-- ===== src/Lib.antt =====
-- zkPrompt: a client sends a chat request over TLS through a proxy and proves in zero knowledge that
-- the ciphertext the proxy saw is a request with a known header whose body has a published commitment.
--
-- The parts and where they are modelled.
--   * The circuit `ZkPrompt` (prover/src/build_cs.rs): Circuit, with `generate_constraints` and its
--     loops; `enforce_equals` and `compress_var` (prover/src/utils/mod.rs) in Circuit.Utils.
--   * The ChaCha20 circuit (prover/src/chacha20): Chacha20, Chacha20.Round and
--     Chacha20.QuarterRound. Chacha20.Reference is the cipher over numbers, as RFC 8439 describes it.
--   * MiMC (prover/src/mimc): Mimc is the trait with its sponge, Mimc.RoundKeys and Mimc.Bn254 the
--     constants of `MimcBn254`, and Mimc.Constraint the sponge over circuit variables. Mimc.Reference is
--     the sponge over the list of constants.
--   * The commitments (prover/src/commitment.rs): Commitment. The circuit computes them again, in
--     `commit_var` of Circuit.
--   * The request (prover/src/openai): Openai.Config is `RequestConfig` and its header sections,
--     Openai.Env reads it from the environment. Openai.Wire splits and pads the bytes of a request,
--     Openai.Headers parses and validates its headers, and Openai.Check is `check_and_pad` with
--     `rebuild_request`; its children look at the header template as lines of text. Openai.Req is the
--     constraints on the header, which the circuit applies to the decrypted bytes.
--   * The witness (prover/src/witness.rs): Witness, the commitments from the plain request and the
--     TLS data.
--   * The proxy (proxy/src): Proxy.Tls is `drain_application_data`, Proxy.Forward the task that
--     copies a connection and prints the commitment to the application data so far, and Proxy.Service
--     `main` with a task of `handle_client` for each connection, their turns in any order.
--   * The bytes of the client (client/src/utils.rs): Client is `encode_request` and Client.Response
--     `decode_response`. Client.Encoded and Client.Accepted relate what is written to the template and
--     to the circuit.
--   * The proving client: Session.KeyLog (client/src/key_log.rs), Session.Materials and Session.Prove
--     (client/src/prove.rs), Session.TlsConfig (client/src/client/proxy.rs), Session.Execute and
--     Session.Send (client/src/client/mod.rs), and the program of the example (example/src/main.rs),
--     which sends a chat and asks for a proof, in Session.Calculator. The session, one cell that a
--     client shares with its clones, is passed from call to call; Session.History looks at the calls in
--     any order, Session.Chat and Session.Refused at a chat from the request to the verified proof or to
--     an error, and Session.Proxied at the record of the request between the client and the proxy, by
--     itself and, in Session.Proxied.Connection, on a connection among others.
--   * The tests of the repository are in Tests, with their data as arguments: Tests.Prompt proves a
--     whole witness (prover/src/build_cs.rs), Tests.Header checks a header
--     (prover/src/openai/req/mod.rs), Tests.Cipher runs the ChaCha20 circuit
--     (prover/src/chacha20/mod.rs), Tests.Mimc the sponges (prover/src/mimc/bn254), Tests.Packing
--     compares the packing of the circuit with the native one (prover/src/utils/mod.rs,
--     prover/src/commitment.rs), and Tests.Tls encrypts as the client does (client/src/lib.rs).
--     Examples.Tests.Vectors runs the tests whose data are fixed.
--   * Base holds the shared names, lists, text, Booleans and the two monads: Base.Partial for code
--     that may panic, Base.Outcome for results. Examples holds tests and the theorems at concrete
--     inputs.
--
-- The code of other libraries is a parameter. Field is the interface of the prime field (ark_ff), with
-- the laws that the proofs use; Field.Modular meets it with the residues of the BN254 order. Gadgets is
-- the interface of the circuit library (ark-r1cs-std, ark-relations): variables with their values,
-- their operations, and the system seen through `is_satisfied` and its public inputs. It is the view
-- of a run with a full assignment, where every variable has a value: a witness variable the one that it
-- is allocated with, so that the witness stands for the assignment, and a public input any value, as
-- the verifier sets it; `Honest` runs are those in which it has the value that the code allocates.
-- Gadgets.Plain meets both. What it means for the constraints of one gadget to be sound is the
-- library's promise, not proved here.
-- Session.Groth16 is the interface of the proof system, with its completeness; Session.Rustls that of
-- the TLS library, with the sizes of its keys and the cipher of RFC 8439; Client.Response.Http that of
-- the builder of responses. The JSON parser, the environment and what the network answers during a call
-- are arguments. Examples.Parts meets these interfaces.
--
-- Bounds and fuel. Bytes are numbers below 256, words are reduced modulo 2 ^ 32 where the source
-- wraps. `drain_loop` has as fuel the number of pending bytes and one more: a round takes off five
-- bytes at least, and the end of the fuel is modelled as a panic is. `chunks_loop` has the number of
-- elements as fuel, since a chunk takes one at least. `digits_loop`, for a decimal, has the number
-- itself. The packing of 250 bits is without wrap-around in a field of more than 2 ^ 250 elements. A
-- response is a finite list of reads; `usize` and `u16` are bounded by 2 ^ 64 and 2 ^ 16 where they are
-- parsed, and a buffer's capacity by 2 ^ 63, `isize::MAX` and one, where one is asked for; elsewhere a
-- configured length is any number, and no sum with it wraps around.
--
-- The scheduler, the sockets, the resolver and the parser of the command line are seen through what
-- they give: Proxy.Service takes a sequence of acceptances and of turns of connections, `tokio::io::copy`
-- is an interface of a state and a step, and what a connection's target answers is part of its turns. The
-- library for agents of the example is an argument that builds a finite tree of requests.
--
-- Left out: the texts of errors and debug lines, the constant settings of the TLS configuration, and
-- `send_multipart` and `send_streaming`, which only pass a call on. The number of constraints that a
-- test compares is what the circuit library counts, an argument of the test.
pub mod Base
pub mod Field
pub mod Gadgets
pub mod Mimc
pub mod Commitment
pub mod Chacha20
pub mod Openai
pub mod Circuit
pub mod Witness
pub mod Proxy
pub mod Client
pub mod Session
pub mod Tests
pub mod Examples
