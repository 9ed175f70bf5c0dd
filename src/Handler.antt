-- ===== src/Handler.antt =====
-- chaos-tproxy-proxy/src/handler/http: the rules, which messages they select, and what they do.
pub mod Message
pub mod Rule
pub mod Selector
pub mod Action
pub mod Apply
