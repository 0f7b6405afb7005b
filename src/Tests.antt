-- ===== src/Tests.antt =====
-- The theorems at concrete inputs, and runs of the definitions on them.
mod Fixtures
mod Days
mod Values
mod Clients
mod Columns
mod Scores
mod Records
mod Learned
mod Grids
mod Recon
mod Answered
mod Pipeline
mod Documents
mod Advices
mod Extracts
mod Trees
mod Workbooks
