-- ===== src/Ulpi/Step.antt =====
-- The transaction step-functions of vpi/usb/ulpi.c, built without `__fast_eop`. Each takes the
-- transfer, the bus `inp` and the old `*out`, and begins with `memcpy(out, in)` where the code does.
pub mod Eop
pub mod Token
pub mod Send
pub mod Recv
pub mod Ack
