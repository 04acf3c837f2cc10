-- ===== src/Http.antt =====
-- The HTTP server's reading of requests: src/coinHTTP/RequestParser.cpp and src/coinHTTP/Request.cpp.
pub mod Url
pub mod Request
pub mod Parser
