-- ===== src/Api.antt =====
-- internal/api/api.go: the handlers, over the storage in memory. The router of gin and its JSON are
-- not modelled: a handler is given what gin finds in the request, and what it calls of the writer
-- of the response is kept.
pub mod Reply
pub mod Tokens
pub mod Roots
pub mod Archives
pub mod Calls
pub mod Refusals
