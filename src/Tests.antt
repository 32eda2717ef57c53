-- ===== src/Tests.antt =====
-- Concrete servers, states and inputs, and each theorem with hypotheses applied to them.
mod Data
mod Backend
mod Requests
mod Interface
mod Streams
