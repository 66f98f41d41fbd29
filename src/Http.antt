-- ===== src/Http.antt =====
-- lw/http: requests, responses, routes, and the server loop that joins them.
pub mod Headers
pub mod Request
pub mod MountPath
pub mod Response
pub mod Trie
pub mod Router
