-- ===== src/Lib.antt =====
-- A verification library for the core of go-svn, a Subversion implementation in Go.
--
-- The program's parts that are modelled, each in modules of its own:
--
-- - Delta/Varint: delta/varint.go, the big-endian base-128 integers of the svndiff format.
--   `append_varint`, `read_varint` and `consume_varint` are the functions of the same names; a reader,
--   or a slice with a position, is the list of the bytes that are left.
-- - Delta/Window: delta/window.go, `Op`, `Window`, `Validate` and `ApplyWindow`. An `int` is an integer
--   (Base/Int), so that negative fields are represented; the target under construction is a list.
-- - Delta/Instructions: `encodeInstructions` of delta/svndiff_write.go and `decodeInstructions` of
--   delta/svndiff_read.go, on top of the varints and of `Validate`. The conversions between `int` and
--   uint64 are the 64 bits written out.
-- - Delta/Xdelta: delta/xdelta.go, the computation of a window by matching blocks of 64 bytes of the
--   source, found through a rolling hash. The hash keeps the wrap-around of uint32; the index
--   `map[uint32][]int` is an association list.
-- - Delta/Svndiff: the documents of delta/svndiff_read.go and delta/svndiff_write.go, with `Decoder` and
--   `Encoder`, in the versions 0, 1 (zlib) and 2 (LZ4). The reader is the list of the bytes left, the
--   writer the list of the bytes written. compress/zlib is the parameter `Zlib`, with the law that a
--   reader that has room for more than was written gets it back.
-- - Lz4: internal/lz4/lz4.go, `EncodeBlock` and `DecodeBlock`.
-- - Delta/Stream: delta/txstream.go and delta/apply.go, a delta between two streams, cut into chunks,
--   and its application window by window. The digests are the parameter `Hashes` of Checksum.
-- - Checksum: svn/checksum.go, with both textual forms.
-- - Hashfile: svn/hashfile/hashfile.go, properties written as records of keys and values, and read back
--   from all of them or on top of a base.
-- - Lcs, Diff and Diff3: internal/diff/diff.go and internal/diff3/diff3.go. Lcs is the table of longest
--   common subsequences that both fill; Diff has the edit script, the origins and the unified form, and
--   Diff3 the differences of two texts and the merge.
-- - Mergeinfo: mergeinfo/mergeinfo.go, the operations on range lists: `Normalize`, `MergeRangelists`,
--   `IntersectRangelists`, `RemoveRangelist`, `DiffRangelists`, `Reverse` and `Inheritable`, with the
--   sweep `combine` that they share. `sort.Slice` is an insertion sort; its result on numbers does not
--   depend on the algorithm. Mergeinfo/Paths has the operations on maps from paths to range lists, as
--   association lists that are meant up to what they answer for a path; Mergeinfo/Text the texts of
--   both, `String`, `ParseRangelist` and `Parse`, which checks its paths with Path; and
--   Mergeinfo/Catalog the catalogs and `ToRevs`.
-- - Path: svn/path/common.go, svn/path/relpath.go and what mergeinfo uses of svn/path/fspath.go, the
--   canonical paths with joining, splitting and ancestors. The other paths of svn/path rest on the
--   platform's rules and on net/url.
-- - Rasvn: rasvn/marshal.go, the items of the ra_svn protocol with `Decoder` and `Encoder`, and the tuples
--   that `WriteTuple` and `ParseTuple` make of them by a pattern. The type switches over `any` are data
--   types, `Value` of what a call may be given and `Slot` of what a destination may hold.
-- - Wc/Queue: wc/workqueue.go, `Enqueue`, `RunWorkQueue` and `runWorkItem` over the rows of the table
--   WORK_QUEUE, which hold skeletons of Skel. The file system and the other tables are a world of any
--   type, and the functions that the items call are the record `Operations` over it. What a round of the
--   loop meets beside its row, a context that is done or a statement of the database that fails, is its
--   `Round`; a process that dies between two rows, or between a row and its deletion, leaves what one of
--   these leaves.
-- - Skel: svn/skel/skel.go, the nested lists of byte strings of the repository format: `MarshalBinary`
--   with `write`, `Parse` with the recursive parser, and the property lists. The parser's position is
--   the list of the bytes left.
--
-- A window travels through these parts: `next_delta` cuts two views off the streams and `build_window`
-- computes it from them, `write_window` writes it with `encode_instructions` and, in version 2, with
-- `encode_block`, `next_window` reads it back, and `apply` applies it with `apply_window`.
--
-- Base holds what the parts share. A function that may fail answers an `Outcome` (Base/Outcome): a
-- value, one of the sentinel errors, a panic where an index or a slice bound is out of range or a slice is too
-- large to be made (`max_alloc`, 2^48 bytes on a 64-bit machine), or
-- `out_of_fuel`, where a loop that is modelled on fuel is cut short; the texts of messages are left
-- out. `Mergeinfo.Value.value` is the meaning of a range list: for every revision, whether it is in a
-- range (behind its start, up to its end) and whether it is then inheritable.
--
-- Fuel: `decode_loop` gets the length of its input, since a round takes a byte at least; `index_loop`
-- the length of the source, since a round moves the position by one; `extend` the length of the
-- target, since the match grows by one and ends within it; and `build_loop` one more than the length
-- of the target, since a round moves the position and the last one ends the loop. The skeleton parser
-- gets two units for each byte and one more, since each list and each node in it reads a byte,
-- and `itoa` the number itself, since a round divides it by ten. `block_loop` gets the length of the
-- block, `encode_loop` one more than the length of the source, `match_loop` that length, and
-- `extended_loop` the number that it writes; `send_loop` one more than the length of the target, since
-- a window takes a byte of it. `walk` and the loops of `differences` get the numbers of lines of both
-- texts together, since a round takes a line of either; `hunks` the number of changes, `merge_loop` and
-- `gather_both` the number of hunks, and one more for the round that ends the latter; the loop of a hash
-- file one more than its length, since a record takes a byte at least. The item decoder gets two units
-- for each byte and two more, as the skeleton parser does, and the loops over a tuple's pattern one for
-- each byte of it and one more; `longest_ancestor` gets one more than the length of the path, since a
-- directory's name is shorter. `revs_loop` gets one more than the number of revisions in the range; it is
-- cut short for a range that ends in the largest int64 alone, where the program's loop does not end.
--
-- Not modelled: the editors; of svn/path the system paths and the URIs; of wc all but the work queue,
-- whose cleanup is left out too; and the packages around the modelled ones (fs, client, ra, radav, the
-- sessions of rasvn, repos, props, the rest of svn, and cmd), which are mostly file, network and database
-- access.
pub mod Base
pub mod Delta
pub mod Mergeinfo
pub mod Skel
pub mod Checksum
pub mod Diff
pub mod Diff3
pub mod Hashfile
pub mod Lcs
pub mod Lz4
pub mod Path
pub mod Rasvn
pub mod Wc
pub mod Tests
