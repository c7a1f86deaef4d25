-- ===== src/Datas.antt =====
-- internal/datas: the inventory that the /datas endpoint serves.
pub mod Json
pub mod Category
pub mod Registry
pub mod Cache
pub mod Plugin
pub mod Ports
pub mod ProcNet
pub mod Linux
pub mod Windows
