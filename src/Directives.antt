-- ===== src/Directives.antt =====
-- lib-lopez/src/directives: what a crawl is told to do, in modules of items.
pub mod Variable
pub mod Names
pub mod Bounds
pub mod Loading
pub mod Load
pub mod Validation
pub mod Analysis
pub mod HtmlExtractor
pub mod ParseCommon
pub mod Parse
pub mod ParseUtils
