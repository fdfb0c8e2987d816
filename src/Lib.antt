-- ===== src/Lib.antt =====
-- A model of the core of SIMON, a network in which clients order inference jobs, coordinators assign
-- them to nodes, and nodes answer with signed execution receipts.
--
-- The parts and how they meet. A client makes a `JobOrder`, which its user authorises
-- (crates/simon-harness/src/client_protocol.rs: Klient). A coordinator checks the authorisation, uses
-- it up, draws a node and assigns the job (crates/simon-cli/src/coord.rs: Koordynator), over the
-- registry of nodes (crates/simon-node/src/lib.rs: Node). The node runs the job within limits
-- (crates/simon-core/src/limity.rs: Limity) and signs a receipt (crates/simon-core/src/receipt.rs:
-- Receipt), which the coordinator and the client check before the job is settled. Messages pass a
-- replay window (crates/simon-core/src/protokol.rs: Protokol); verified work is entered in a ledger
-- (crates/simon-core/src/rejestr.rs: Rejestr); an action that a model proposes is checked against the
-- capability ceiling and the operator's permit (crates/simon-core/src/cap.rs: Cap); what reaches a tool
-- passes the flow policy (crates/simon-core/src/przeplyw.rs: Przeplyw), and what it fetches the policy
-- for the web (crates/simon-core/src/web.rs: Web); long inputs are split and grouped
-- (crates/simon-cli/src/mapreduce.rs: Mapreduce).
--
-- Three processes stand around these parts. The ACP server (crates/simon-harness/src/acp_server.rs: Acp)
-- takes orders from a client, publishes them and follows what coordinators answer. A node
-- (crates/simon-cli/src/node.rs and wspolne.rs: Wezel) takes prompts in within its limits, asks its
-- backend, and signs a receipt of the answer; an agent (crates/simon-cli/src/agent.rs: Agent) sends
-- prompts and checks the answers, in the types of crates/simon-harness/src/request_response.rs (Prompt).
-- Wezel/Liczenie/Accepted joins the two. The agent's key is kept by crates/simon-core/src/tozsamosc.rs
-- (Tozsamosc); what it measured is signed (crates/simon-core/src/obserwacja.rs: Obserwacja); a run is
-- audited by crates/simon-core/src/m3.rs (M3); and a browser checks receipts with
-- crates/simon-verify-wasm/src/lib.rs (Wasm).
--
-- Digests and keys (crates/simon-core/src/lib.rs and crypto.rs: Kodowanie, Crypto) stand on other crates.
-- Their functions are the record `Biblioteki`, a parameter everywhere, and what is relied on of them is
-- the record `Prawa`; Crypto/Toy meets it with functions that compute, for tests. Nothing is assumed of
-- the hash: where two contents should have different digests, the statement has a collision, `Kolizja`,
-- as the other case. A value that is serialised is a `Dokument`, with its fields in their order.
--
-- Names are those of the source, in lower case; a method whose name several types have is named for its
-- type (`odcisk_zlecenia` is `JobOrder::digest`). State that a method changes is passed and returned;
-- `Result` is Result, `?` its bind. Unsigned machine integers are natural numbers, with saturation and
-- wrap-around written out (Prelude/Words); hash maps and sets are association lists and lists, whose
-- order no statement uses (Prelude/Dict). Loops are structural recursion on the list they walk, but for
-- the queue of the agent's halves, which takes fuel: more than `waga g`, which is 2^(g+1) - 1 and the most
-- requests that a chunk takes when it may be halved g times over, is enough; and for its reduction, where the number of the
-- results is. (The printer of numbers in Klient/Toy, for tests, has twenty digits.) `f64` is the
-- parameter `Float` (Prelude/Float), of which nothing is assumed. A text of the coordinator is cut in
-- bytes, and a cut inside a character is a panic, an outcome of its own.
--
-- Prelude has the shared names, Boolean tests, lists, texts, maps, orders and minima. Each part has a
-- module of definitions, child modules named for what they prove, and a module Tests.
--
-- Not modelled: the network, HTTP and JSON parsing, whose outcomes are arguments; clocks, random numbers
-- and the outcomes of writes, likewise; `Receipt::elapsed_secs`; the sums of the ledger;
-- crates/simon-core/src/pomiar.rs; the swarm of crates/simon-harness/src/transport.rs; the options and
-- subcommands of crates/simon-cli/src/main.rs; of agent.rs, the orders that it builds; of the WebAssembly
-- bindings, `ocena_m3`; the texts of errors that are only displayed.
pub mod Prelude
pub mod Kodowanie
pub mod Crypto
pub mod Limity
pub mod Protokol
pub mod Przeplyw
pub mod Receipt
pub mod Mapreduce
pub mod Node
pub mod Klient
pub mod Koordynator
pub mod Cap
pub mod Rejestr
pub mod Acp
pub mod M3
pub mod Tozsamosc
pub mod Wasm
pub mod Obserwacja
pub mod Prompt
pub mod Agent
pub mod Wezel
pub mod Web
