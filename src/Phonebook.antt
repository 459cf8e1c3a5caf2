-- ===== src/Phonebook.antt =====
-- pkg/phonebook and the key getters of mw/auth.go: the users, and who may change one.
pub mod Outside
pub mod User
pub mod Handlers
