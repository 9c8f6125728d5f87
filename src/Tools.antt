-- ===== src/Tools.antt =====
-- The tool calls in the text of a model (app/products/openai, app/dataplane/reverse/protocol).
pub mod Sieve
