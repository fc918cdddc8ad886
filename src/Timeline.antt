-- ===== src/Timeline.antt =====
-- lib/timeline-scroll.ts and lib/timeline-window.ts: how the timeline's list follows its items.
pub mod Scroll
pub mod Window
pub mod Prepend
pub mod Tests
