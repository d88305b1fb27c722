-- ===== src/Register.antt =====
-- register/RegisterPage.tsx with shared/cookies.ts: the page on which a browser asks to be approved
-- as a client.
pub mod Pairing
pub mod Page
mod Tests
