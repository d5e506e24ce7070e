-- ===== src/Security.antt =====
-- Security (capabilities/security): the store of the tokens that are valid, and captchas.
pub mod Tokens
pub mod Captcha
