-- ===== src/Users.antt =====
-- User profiles, src/modules/users.
pub mod Cpf
