-- ===== src/Lib.antt =====
-- Confidential Agent: the core of the program that builds, deploys and connects confidential
-- virtual machines: the crate `core`, the guards and the audit of the gateway, and the command policy.
--
-- The parts, the files that model them and the code they follow:
--
-- Spec (core/src/spec.rs). An agent's spec says what to build and where to deploy it. Spec/Types
-- has the structs and enumerations with their fields; an absent field is what serde makes of it, since
-- the YAML parser is an argument of `from_yaml`. Spec/Paths has `normalize_path` and
-- `resolve_pathbuf` on the components of Unix paths, Spec/Resolve `resolve_paths_against`,
-- Spec/Disk the sizes of `configured_image_disk_gb` and `deployment_disk_gb`, and Spec/Ports,
-- Spec/Container, Spec/Urls, Spec/Resources and Spec/AgentToAgent the checks of their parts.
-- Spec/Checks composes them as `AgentSpec::validate` does, in its order, and Spec/Checks/Loading has
-- `from_yaml`: parse, resolve, validate.
--
-- Net and Peerings (core/src/peerings.rs). Net has IPv4 addresses and CIDR blocks, Peerings the
-- entries with their roles and scopes, `PeeringsFile::validate`, and the questions that are asked of a
-- file: the blocks of a scope, and whether an address may reach the control plane.
--
-- A2a (core/src/a2a.rs). The peers that the CLI keeps and the bundle that the guest is sent, with
-- their checks and `A2aStateFile::from_path`.
--
-- Trustee (core/src/trustee.rs). The runtime configuration, and the path at which a service's
-- resource stands in the key broker; Spec uses its check of a service's id.
--
-- Schema and Mesh (core/src/schema.rs, core/src/mesh.rs). The state of a deployed service, the
-- addresses and confidential ports of it, and the bundle of the mesh.
--
-- Gateway (gateway/src/lib.rs). Gateway/Config is the check of the gateway's configuration; Gateway
-- itself has the verification of a service's token and the replay cache, with Gateway/Accepted on the
-- checks of a token, and Gateway/Cache and Gateway/Replay on its one use. The clock is an argument;
-- base64, JSON and the signature scheme are the record `Crates`; the lock makes a call one step.
-- Gateway/Canonical has canonical JSON and the hashes, Gateway/Audit/Lines what a write leaves in the
-- audit file, and Gateway/Audit the store on its file: `append`, `verify_path` and `open`; an append
-- can fail before, inside and after its line, and what was written stays. SHA-256 and serde_json's
-- texts are the records `Encoders` and `LineFormat`. Gateway/Chunked is `decode_chunked_body`; its
-- fuel is the length of the body and one, and each round takes bytes off. Gateway/Tools reads a
-- JSON-RPC request and puts the gateway's own tools into a JSON list of tools, Gateway/Mcp/Respond is
-- the response to one request, and Gateway/Mcp is the loop of `handle_mcp_connection` on the audit
-- store, for one connection at a time; a write to the socket can fail, which ends the connection.
--
-- Pep (cai-pep/src/main.rs). The guard of an agent's shell commands. Pep/Intent takes a request through
-- `handle_intent`: Pep/Policy has its folders and denied patterns, Pep/Attestation the helper's command
-- line, Pep/Sandbox the container's and the attestation client's commands, Pep/Process how a process is
-- polled, killed, captured and cleaned up, Pep/Submit the other command lines. A step takes and gives
-- the `World`: the counter of the names and what was spawned. What the machine answers is the record
-- Pep/Host.Host. The polling loop has fuel for one round per interval of its time limit, and two more.
--
-- Common has what the parts share: tests on numbers and texts, lists, `Result` with the problem a
-- check reports, the methods of `str`, ordered maps and JSON values.
--
-- A check returns `Result`; its error is a field and a problem, which stand for the message's
-- text. Texts are those of Unicode; `len` counts bytes of UTF-8. Ports and generations are natural
-- numbers, which serde keeps below their width. The arithmetic on sizes writes its 32 and 128 bit
-- bounds out, and an address is four octets and its 32 bit number. A loop with a set of what it saw is
-- a recursion with the list of what it saw, asked for its members only.
--
-- Not modelled: reading and writing files, serde's parsing and its defaults, the clock, digests and the
-- texts of JSON; in the gateway the signing of tokens, sockets and the rest of HTTP; in cai-pep the server's and the
-- client's sockets and the removal of scratch files; the crates daemon, shelter and cli; and in core the
-- agent cards, the rest of the schema and the utilities.
pub mod Common
pub mod Net
pub mod Trustee
pub mod Spec
pub mod A2a
pub mod Pep
pub mod Peerings
pub mod Schema
pub mod Mesh
pub mod Gateway
