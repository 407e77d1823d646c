-- ===== src/River.antt =====
-- wm/river_wm.c: river-window-management-v1 on top of the cohort of window.c.
pub mod Events
pub mod Modifiers
pub mod State
pub mod Sequence
pub mod Manager
pub mod Keys
pub mod Steps
mod Awake
mod Lifetime
mod News
mod Reports
mod Settle
mod Stuck
mod Routing
mod Tests
