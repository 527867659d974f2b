-- ===== src/Media.antt =====
-- Audio responses (media.py): the parsing of a Range header, the stream of the bytes, and the response
-- that is made of both.
pub mod Header
pub mod Stream
pub mod Response
pub mod Decimal
pub mod RoundTrip
pub mod Bounds
pub mod Answers
pub mod Again
