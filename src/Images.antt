-- ===== src/Images.antt =====
-- mini_docker/image_builder.py: the build file, and the images that are built from it. Texts are
-- ASCII, as code points.
pub mod Parse
pub mod Build
pub mod Printing
pub mod Layers
pub mod Lookup
