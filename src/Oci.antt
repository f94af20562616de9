-- ===== src/Oci.antt =====
-- mini_docker/oci.py: configurations of OCI bundles, as the documents of JSON that the code reads
-- and writes. A field that is missing is `none`; documents of another shape, on which Python would
-- raise, are left out, and so are the fields that nothing reads.
pub mod Documents
pub mod Convert
pub mod Trip
