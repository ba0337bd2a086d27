-- ===== src/Core/Tests.antt =====
-- Examples of the shared parts.
mod Cut
mod Queue
