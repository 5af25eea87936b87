-- ===== src/Vmdk.antt =====
-- pkg/copy/vmdk.go: a stream-optimized VMDK, read from an `io.Reader` and written as a raw disk
-- image through an `io.WriteSeeker`.
--
-- A `Decoder` is the `vmdkStreamReader` with its stream; it is handed from call to call, and an
-- error leaves it as it stands at that point. `Env` holds what the code calls: zlib as the stream
-- that a compressed grain inflates to, the failures of the writer, and the cancellation of the
-- context by the round of the loop. The loop runs on fuel; each round reads at least one byte.
pub mod Decoder
pub mod Grain
pub mod Image
pub mod Progress
pub mod Bounds
pub mod Encode
pub mod Pieces
pub mod HeaderFields
pub mod RoundTrip
