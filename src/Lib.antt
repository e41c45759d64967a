-- ===== src/Lib.antt =====
-- Zodia: a peer-to-peer astrology journal. Peers write interpretations of chart factors, affirm
-- and answer each other's texts, and edit one collaborative document for each key.
--
-- The parts and the files that model them:
--   core/src/planet.rs, aspects.rs, interp.rs: planets, aspect kinds, the keys of
--     interpretations, their canonical strings and the parser of these. Core/Planet, Core/Aspects,
--     Core/Interp. core/src/patterns.rs: grand trines and T-squares. Core/Patterns.
--   store/src/lib.rs: the SQLite store. Store has the rows and the database; Store/Interps has
--     interpretations, affirmations, responses and revocations, its queries in Queries; Store/Docs
--     has the snapshots, author rings and votes of documents; Store/Feed has the feed and its read
--     marks; Store/Peers has messages, names and mutes. Each function carries the name of the
--     method that it models.
--   store/src/seed.rs: the baseline texts. Store/Seed.
--   doc/src/lib.rs: the ring of recent authors of a block and the authority to veto, in Doc; the
--     document over its CRDT, in Doc/Document, its local edits in Doc/LocalEdits.
--   ops/src/lib.rs: the operations that replicate and what a header carries for them. Ops.
--   pipeline/src/lib.rs: the two stages between operations and the events of the application, in
--     Pipeline; their calls in any order in Pipeline/Runs and Pipeline/Completion.
--   circles/src/lib.rs: the log and the topics of circle operations. Circles.
--   sync/src/lib.rs: the node that publishes, receives and prunes operations. Sync has the calls,
--     Sync/Journal, Sync/Sound and Sync/Chain what they do to the identity's logs, Sync/Prune the
--     pruning. OperationStore is the part of p2panda's store that both use. Delivery has the way of
--     an operation from one peer's node to another one's pipeline.
--   net/src/channel.rs and app/src/app.rs: the exchange of interpretations between two connected
--     peers. Channel has the messages, App/InterpSync the collecting and the import.
--   app/src/app.rs: how the application applies a synchronised edit of a document to the store
--     (apply_doc_edit), how it judges a veto (apply_doc_veto), and the byte form of block lists, in
--     App/Docs and App/Blocks; the handler of state events (AppMsg::SyncStateEvent) in App/Events,
--     with what it writes to the store in App/Events/Writes and Refinement, and who is present in an
--     editor in App/Presence; the migration of interpretations to documents in App/Migration, the
--     texts that it gives them in App/Migration/Texts. app/src/feed_item.rs: App/FeedItem.
--   crypto/src: the key agreement (handshake.rs), the chains and sessions (ratchet.rs), the
--     consent state of a peer relationship (lib.rs) and relayed messages (ecies.rs). Crypto has
--     the functions, Crypto/Consent the state machine, Crypto/Sessions the agreed keys and
--     Crypto/Relay the way of a relayed message.
-- Sql has the SQL statement forms that the store uses, over tables given as lists of rows in scan
-- order, with their laws; Prelude has shared names and lemmas; Tests runs the code on small data.
--
-- How the parts interact: keys are written as canonical strings, which the store hashes with a
-- text into a log id; what a peer sends is checked against that id before it is stored. The node
-- receives operations into its store and passes them on; the pipeline decodes each into a state
-- event; the handler writes what the event says to the store and tells the feed. An edit that
-- arrives saves the document's new snapshot beside the one before it and pushes the editor
-- onto the rings of the edited blocks; a veto reads both and rolls the document back.
--
-- Conventions. Strings and byte vectors are lists of bytes; an array of 16, 32 or 64 bytes is the
-- number whose little-endian bytes it holds, but a nonce is a byte string; a nullable column is an
-- Option. Operations take the database and give the new one beside their result. The clock is an
-- argument. Rows that ORDER BY leaves equal stay in scan order. Times and counts are taken to fit
-- 64 bits. A time keeps the unit that the code has it in: the application's clock is in seconds,
-- timestamps of operations and state events are in microseconds.
--
-- Parameters, for code outside the repository: the digest and the signature scheme (Primitives),
-- the text CRDT of documents (Crdt, TextCrdt) with its documented laws IsTextCrdt, key derivation, X25519 and the AEAD (Ciphers), CBOR (Codec,
-- Cbor),
-- hex (Hex), p2panda's store of operations (SqliteStore) with the documented laws IsLogStore, and
-- which topics and operations its network takes (Network). Loops are structural, so no fuel is
-- needed.
--
-- Not modelled: failures of the SQLite engine; the migrations of old databases; the chart
-- computations over floating point, which the exchange of interpretations takes as a parameter; transport, audio and video; membership and encryption of
-- circles, which p2panda-spaces does; the client library; the user interface.
pub mod Prelude
pub mod Core
pub mod Sql
pub mod Store
pub mod Doc
pub mod App
pub mod Ops
pub mod Pipeline
pub mod OperationStore
pub mod Circles
pub mod Sync
pub mod Delivery
pub mod Channel
pub mod Crypto
pub mod Tests
