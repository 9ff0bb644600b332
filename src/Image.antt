-- ===== src/Image.antt =====
-- pkg/image: the conversion of images to block devices.
pub mod Tools
pub mod Names
pub mod Collision
pub mod Filesystem
pub mod Oci
pub mod Fsify
pub mod Conversion
pub mod Convert
pub mod Rootfs
pub mod Tidy
