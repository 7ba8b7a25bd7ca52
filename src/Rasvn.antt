-- ===== src/Rasvn.antt =====
-- rasvn/marshal.go: the items of the ra_svn protocol and the tuples made of them. The reader is the
-- list of bytes that are left, the writer the bytes it holds; every `ProtocolError` is the one code
-- that callers can tell, whatever its text and its cause.
pub mod Item
pub mod Encode
pub mod Scan
pub mod RoundTrip
pub mod Reads
pub mod Total
pub mod Tuple
