-- ===== src/Layout/Builder/Apart.antt =====
-- src/runtime/layout.rs: the fields of one layout, and how they lie to each other.
use roto.Layout.{Layout}
use roto.Layout.Builder
