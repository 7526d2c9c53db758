-- ===== src/Expressions.antt =====
-- lib-lopez/src/directives/expressions: the language in which a rule says what to take from a page.
pub mod Error
pub mod Transformer
pub mod Extractor
pub mod Aggregator
pub mod Parse
