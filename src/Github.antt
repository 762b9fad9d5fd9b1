-- ===== src/Github.antt =====
-- ci-bench-runner/src/github.rs: the webhook's signature, the size limit of comments and the
-- installation's token.
-- HMAC-SHA256 and hexadecimal decoding come from other crates, and are a parameter.
pub mod Truncation
pub mod Signature
pub mod Token
