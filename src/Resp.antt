-- ===== src/Resp.antt =====
-- packages/client/lib/RESP: the protocol's decoder and encoder.
pub mod Argument
pub mod RespTypes
pub mod Reply
pub mod Program
pub mod Decode
pub mod Run
pub mod Decoder
pub mod Encoder
