-- ===== src/Mgmtd.antt =====
-- mgmtd: how it joins the fabric, the outcome of a reload that it shows, and who may sign in.
pub mod Bootstrap
pub mod Auth
pub mod Web
pub mod Accounts
pub mod Serve
