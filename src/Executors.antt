-- ===== src/Executors.antt =====
-- Parts of the executors: environment/parsl/executors.
pub mod Mpi
pub mod Interchange
