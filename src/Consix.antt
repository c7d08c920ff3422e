-- ===== src/Consix.antt =====
-- consix/: the connect-six engine. `State` holds the data of search.h, and the other modules the
-- functions of search.cpp by what they work on.
pub mod State
pub mod Coord
pub mod Scan
pub mod Lines
pub mod Move
pub mod Win
pub mod Candidates
pub mod Run
pub mod Threats
pub mod Value
pub mod Defend
pub mod Build
pub mod Judge
pub mod History
pub mod Handler
pub mod Search
pub mod Game
mod Tests
