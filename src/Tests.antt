-- ===== src/Tests.antt =====
-- Concrete databases, requests and ciphers, and the theorems applied to them.
mod Data
mod Ciphers
mod Histories
mod Keyboard
mod Console
mod Downlinks
mod Devices
mod Menus
mod Settings
mod Logins
mod Codes
mod Permissions
