-- ===== src/Tests.antt =====
-- Concrete inputs for the theorems that have hypotheses, and runs of the definitions.
mod FileFs
mod Images
mod Tree
mod Walks
mod Tools
mod Terminal
mod Sessions
mod Logs
mod Interactive
