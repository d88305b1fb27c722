-- ===== src/Calendar.antt =====
-- web/src/plugins: the days of the calendar, and the widgets that show rows by day.
pub mod Dates
pub mod Decimal
pub mod Keys
pub mod Between
pub mod Events
pub mod Month
pub mod Legend
pub mod Birthdays
pub mod Meals
pub mod Views
pub mod Format
mod Tests
