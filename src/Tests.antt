-- ===== src/Tests.antt =====
-- Runs at concrete inputs: samples of what comes from outside the repository, and the theorems
-- applied to them.
mod Samples
mod Parsers
mod Parsing
mod Ranking
mod Order
mod Expressions
mod Directives
mod Crawler
mod Master
mod Loading
mod Load
mod Rules
mod Running
mod Robots
mod Validation
mod Origins
