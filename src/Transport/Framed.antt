-- ===== src/Transport/Framed.antt =====
-- src/transport.rs: `FramedTransport`. A method returns its result and the transport after it. The
-- reader is what its stream will deliver, the writer what it has taken; the text of a UTF-8 error,
-- which only error messages hold, is a parameter.
pub mod State
pub mod Read
pub mod Write
pub mod SameBytes
pub mod Lines
pub mod Delivery
pub mod Desync
pub mod Frames
pub mod Auto
pub mod Progress
pub mod HeaderText
pub mod LineText
pub mod Style
pub mod Settle
pub mod FrameRead
pub mod RoundTrip
pub mod Newline
pub mod NewlineTrip
pub mod Either
pub mod LineBound
pub mod Bounds
pub mod LineTaken
pub mod HeadTaken
pub mod BodyTaken
pub mod Exact
