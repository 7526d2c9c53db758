-- ===== src/Lib.antt =====
-- A verification library for Lopez, a crawler that scrapes pages by directives.
--
-- The program. The master (lib-lopez/src/crawler/master.rs) fetches batches of pages from a backend
-- and hands each page to the worker that the hash of its origin chooses. A worker
-- (crawler/worker/mod.rs) takes the page, asks the origin's robots.txt (crawler/robots.rs) whether it
-- may, downloads and parses it, follows its links (crawler/boundaries.rs), and stores what it found.
-- What to crawl and to extract is told by directives (lib-lopez/src/directives): modules of items that
-- are loaded from files, with boundaries, variables and rules. A rule is an aggregator over extractors
-- and transformers (directives/expressions), each with a type checker and an evaluator. At the end the
-- master has the backend store page ranks (backend/mod.rs).
--
-- Files and code:
--   Prelude: lists, texts as bytes, results, panics, integers and sorting, shared by all parts.
--   Extern: floats, serde_json numbers, the regex crate and SipHash. Urls: the url crate. Nom: the
--     combinators of the nom crate, and what is documented of them; Nom/Eats has the rules by which a
--     parser goes on without more depth of calls than its text is long, Nom/Runs those by which it is
--     run on a text of known beginning.
--   JsonType: lib-lopez/src/type.rs; JsonType/Reading is its FromStr. Value: serde_json::Value, with
--     its types and equality (directives/expressions/value_ext.rs); Value/Hash is HashableJson.
--   Expressions/Transformer: directives/expressions/transformer.rs; TypeFor is type_for, Eval is eval,
--     Compare is cmp_json, Pretty is pretty, Display is fmt.
--   Expressions/Extractor, Expressions/Aggregator: extractor.rs and aggregator.rs of the same
--     directory. run_rule is the body of Analyzer::analyze for one rule. Expressions/Parse: parse.rs of
--     the same directory.
--   Directives/Variable: directives/variable.rs, and the settings of directives/mod.rs.
--   Directives/Names, Directives/Bounds, Directives/Loading, Directives/Validation:
--     directives/directives.rs; Bounds is its Boundaries, Loading is Module::load, and Validation is
--     Directives::validate with what it gathers from the items. Directives/Analysis is
--     Analyzer::analyze. Directives/Load is Directives::load, from a path to valid directives, and what
--     the directives are asked for then. Directives/HtmlExtractor: directives/extractor.rs and
--     selector.rs, over the scraper crate as a parameter (Dom); HtmlExtractor/Rules puts the
--     extractors into rules and directives.
--   Directives/ParseCommon, Directives/ParseUtils, Directives/Parse: parse_common.rs, parse_utils.rs and
--     parse.rs of directives; Parse/Items has the items and the entry point.
--   Crawler/Reason, Crawler/Boundaries, Crawler/Robots, Crawler/Worker, Crawler/Master: the files of
--     that name in lib-lopez/src/crawler. Crawler/RobotsFetch: get_robots of crawler/robots.rs.
--   Crawler/Worker/Run: the tasks of CrawlWorker::run over the stream of pages, as steps in any order. A
--     step is a call of the backend: the lookup of an origin, which may never return or panic, the
--     download and the throttle of a task are no steps, and are taken to have returned. A worker has one
--     backend, and its stream is closed.
--   Crawler/Origins: crawler/worker/origins.rs; Load is Origin::load, on top of Crawler/RobotsFetch
--     and Crawler/Robots.
--   Backend/PageRank: PageRanker::page_rank of lib-lopez/src/backend/mod.rs. Backend/PowerIteration:
--     the numbering of the nodes and the layout of the links in lib-lopez/src/page_rank.rs.
--   Tests: samples, and the theorems applied to them.
--
-- Conventions. A panic is none of Option, an error is err of Result. A mutable state is an argument
-- and a result; what the backend, the files or the workers answer is a function of the log of what
-- they were asked before, so that every order of answers is covered. usize and u64 have 64 bits and
-- wrap; the depth of a page has 16. A HashSet is the list of its members, in which a member is
-- found by its hash and then by its equality; a BTreeMap is the list of its entries in their order.
-- sort_unstable is an insertion sort: std leaves open the order of elements that compare as equal, and
-- even whether the result is sorted by cmp_json, which is no total order. Texts are their bytes in
-- UTF-8.
--
-- Fuel. show_ℕ has one more step than the number, which has fewer digits. Module::load has fuel for
-- the depth of imports, and the loop of the master for its steps: each has a theorem that says how
-- much is enough, and one that says when none is. get_robots has fuel for the domains, likewise,
-- where the last part of the domain is no number: else a host may be an IP address, without a domain. A
-- parser that calls itself takes the depth to which it may; a text of n bytes is read, or refused,
-- within a depth of n + 1, for each call is made behind a byte that was taken.
--
-- Not modelled: the sums of floats of power iteration (they run over tiles in parallel, and depend on
-- the order of additions), and what is input and output: downloaders, the command line, the server,
-- the PostgreSQL backend and logging. The counters and their diagnostics are commented out of the
-- build. The crates nom, scraper, url, regex and robots_txt are parameters.
pub mod Prelude
pub mod Extern
pub mod Urls
pub mod Nom
pub mod JsonType
pub mod Value
pub mod Expressions
pub mod Directives
pub mod Crawler
pub mod Backend
pub mod Tests
