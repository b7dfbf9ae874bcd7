-- ===== src/Portal.antt =====
-- The web servers' database of teams, students and appointments, and the handlers that change it.
pub mod Db
pub mod Calendar
pub mod Booking
pub mod Teams
pub mod Students
pub mod Settings
pub mod Logins
pub mod Slots
pub mod Account
pub mod Dashboard
pub mod Connections
pub mod Periods
