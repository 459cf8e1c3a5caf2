-- ===== src/Models.antt =====
-- models/: the generated documents (models/generated) and paging (models/utils.go).
pub mod Workloads
pub mod Directory
pub mod Phonebook
pub mod Paging
