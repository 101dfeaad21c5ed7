-- ===== src/Http.antt =====
-- utils/http.c and include/http.h: the HTTP messages, their tables, their parser and printer.
pub mod Method
pub mod Mime
pub mod Message
pub mod Header
pub mod Parse
pub mod Send
pub mod Receive
pub mod Exchange
