-- ===== src/Raid.antt =====
-- kernel/raid.c, raid.h and sysraid.c: the RAID layer over the virtio disks.
pub mod Types
pub mod Machine
pub mod Superblock
pub mod Geometry
pub mod Rw
pub mod Recovery
pub mod Volume
pub mod Api
mod Tests
