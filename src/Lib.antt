-- ===== src/Lib.antt =====
-- amp.SDK: the identifiers of stdlib/tag, the transaction core of package amp, the keystore of stdlib/safe and
-- the task contexts of stdlib/task, as definitions that run, with theorems about them.
--
-- The program. A UID is a 128-bit number in two words: a hash of a name, a time, or a rank drawn between two
-- others. Three UIDs (node, attribute, item) name an element of the shared store, a fourth the edit, and the
-- four make an address whose bytes are a key of the store. A transaction (TxMsg) carries operations on such
-- addresses and their values as one byte store; it crosses the wire as a preamble, length-prefixed messages
-- and a delta-compressed section of operations. Who may write to a channel is resolved along the chain of its
-- parents, and founders authorise changes of keys by a quorum of signatures. The keys of the epochs in which
-- values are encrypted stand in a store of their own, which is sealed to disk at every change. Work runs in a
-- tree of contexts, each with goroutines of its own.
--
-- Which file models which part (paths from the repository's root):
--   Tag/Uid             stdlib/tag/tag.id.go: words, order, arithmetic; Uid/Arith has the laws.
--   Tag/Uid/Time        UID_FromTime, Unix, AsTime, NowID of the same file.
--   Tag/Uid/Base32      Base32, UID_ParseBase32, MarshalJSON, with the alphabets of stdlib/encode/encode.go.
--   Tag/Address         stdlib/tag/tag.address.go: keys, their order (Keys, Order), increments (Step, Fields).
--   Tag/Rank            stdlib/tag/rank.go: Draw for randBelow, Between and Across for the two minters.
--   Tag/Locus           stdlib/tag/tag.locus.go: cells (Laws), the spiral (Spiral), the registry (Registry).
--   Amp/Wire            amp/amp.support.tx.go: writePb and readPb over the variable-length numbers of
--                       encoding/binary.
--   Amp/Ops             appendOps, readOps and readOpsSection of the same file; Single reads one operation.
--   Amp/Tx              OpValueBytes, MarshalOp, Normalize, reconstructEditIDs and TxSigOffset of the same file.
--   Amp/Access          amp/amp.support.acc.go: ResolveAccess, HasAccess, ItemBoundToAuthor.
--   Amp/Quorum          VerifyCoSignatureQuorum of amp/amp.support.rekey.go.
--   Amp/Rekey           the digest, the gate and the did:key fold of the same file.
--   Amp/Member          amp/amp.support.memberepoch.go: MergeItem on the states of the members.
--   Amp/TagTree         amp/amp.support.tags.go: leaves, Walk, Validate, ByContentType; texts are ASCII.
--   Tag/UidMap          the maps by UID that the parts keep, and the laws of their operations.
--   Safe/Keys           stdlib/safe/epoch_keys.go: the maps; Session has the operations of a store, Lookup and
--                       Newest what they find, Current the shape of the maps, Reopen and Durable the disk.
--   Amp/Selector        amp/amp.support.attrs.go: item spans and selectors; Normal has Normalize over Loop and
--                       Sorting, Admitted what is admitted.
--   Amp/Terms           the same file: grace periods, cuts, and the durations of a configuration.
--   Amp/Find            amp/amp.support.tx.go: Upsert, Delete, ExtractValue, and LoadValue with its search (Search, Loads).
--   Amp/Seal            the same file: envelopes, headers, preambles, MarshalToBuffer and SealTx; Layout says where the
--                       parts stand.
--   Amp/Open            the same file: OpenTx, ParseTxEnvelope, TxSignedDigest and ReadTxMsg; Preamble and Payload find
--                       the parts, Local and Stream are without a provider, Signed to RoundTrip with one.
--   Amp/Epoch           amp/amp.support.epoch.go: epochs that are framed, assembled and chained; Passing says what is
--                       known where checks pass.
--   Amp/Boxes           amp/amp.support.epoch.go and amp.support.sealed.go: the boxes of epoch links and sealed values.
--   Amp/Founders        FounderFingerprint of amp/amp.support.epoch.go; Order has that insertions commute.
--   Safe/Sign           stdlib/safe/safe.sign.go: the segments that a signature covers, and in Framing that they are
--                       determined by them.
--   Task/Context        stdlib/task/task.go: contexts and their sections; Steps has the step relation, Invariant to
--                       Family what it keeps, Safety and Life what follows.
--   Base                numbers, words, bytes and lists that the parts share.
--
-- How code becomes definitions. A machine word is a natural number with its wrap-around written out, and IsU64
-- and IsUid say that it is in range. Methods on a pointer return the new value beside their result. Bytes are
-- numbers in a list, and a slice is taken with take and drop; where Go would panic on a slice out of range,
-- Read has a case for it. An int that is computed from wire data is the 64-bit pattern of the sum, negative
-- from 2 ^ 63 on. Draws of crypto/rand are a list that the functions consume. A map is a list of pairs or a
-- function. The marshalling of protocol buffers, the check of a signature, the hashes and the sealing of a
-- tome and the crypto provider of SealTx and openTx are parameters. A caller's buffer is the list of the bytes
-- of its backing array, and a stream is a list of chunks, a read takes at most what is left of one, and each
-- says whether an error comes with its last bytes. An operation that can fail and still change its state
-- returns both the state and the error. ItemSelector.Normalize works on pointers into one store of spans,
-- since a span that is moved stands in the slice twice. Goroutines are a step relation: a step is one critical
-- section behind its guard, what a goroutine holds between two sections is in the state, and a run is any
-- sequence of steps. sort.Slice is an insertion sort: two results of sorting differ only among equal elements,
-- which are operations of one address, refused by Normalize, spans of one element range, and founders' entries
-- of the same bytes.
--
-- Fuel. cellToRing runs on one round more than the cell, readOps on one round more than the bytes of its
-- section, AppendUvarint on the ten bytes that 64 bits need; the theorems below show that this is enough for
-- the cells and for every section that appendOps writes. The walk of ResolveAccess needs none: it counts down
-- from the bound on the depth.
--
-- Not modelled: layouts in floating point, generated code, input and output, logging, and the rest of the
-- packages amp, safe, symbol and webapi, as listed with the parts of the program.
pub mod Amp
pub mod Base
pub mod Safe
pub mod Tag
pub mod Task
