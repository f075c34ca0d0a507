-- ===== src/Protocol.antt =====
-- server/src/protocol.c and server/include/protocol.h: the request parser (Strtok, Parse) and the
-- builders of responses (Reply), with what is proved of them below each.
pub mod Strtok
pub mod Parse
pub mod Reply
pub mod Request
pub mod Interleaving
