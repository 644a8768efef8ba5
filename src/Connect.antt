-- ===== src/Connect.antt =====
-- cmd/connect: choosing a host, making sure that its key is there, and connecting.
pub mod Choose
pub mod Table
pub mod Run
pub mod Ssh
pub mod Keys
pub mod Marks
