-- ===== src/Bot.antt =====
-- internal/bot: the part of the commands that decides what plays next.
pub mod AutoNext
pub mod Numbers
pub mod Episodes
pub mod Control
mod Tests
