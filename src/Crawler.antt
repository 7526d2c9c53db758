-- ===== src/Crawler.antt =====
-- lib-lopez/src/crawler: the crawl itself.
pub mod Reason
pub mod Boundaries
pub mod Robots
pub mod Worker
pub mod RobotsFetch
pub mod Origins
pub mod Master
