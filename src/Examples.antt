-- ===== src/Examples.antt =====
-- The theorems at concrete inputs, and small runs of the models.
mod DiskImages
mod Copies
mod Preparations
mod Stages
mod Sessions
mod Overlays
mod Guests
mod Mounts
mod Versions
mod Conversions
mod Volumes
