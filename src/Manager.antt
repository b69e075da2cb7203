-- ===== src/Manager.antt =====
-- manager.go: the manager of named sessions. sync.Map is an association list: the order of a Range is
-- not specified, here it is that of the list. `shut_down` says that closeOnce has fired, the last
-- three flags that the CDP session, the browser and Playwright are not nil.
pub mod Operations
pub mod Laws
pub mod Start
pub mod Shutdown
pub mod Registry
pub mod Refinement
