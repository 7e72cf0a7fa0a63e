-- ===== src/Arrays.antt =====
-- The pointer arrays of core/utils/utils.c: null terminated (`array_nt_*`), fixed (`array_fix_*`)
-- and packed null terminated (`array_pnt_*`). A `void**` is `none` for NULL, or the list of the
-- cells that are allocated; the cells that `malloc` and `realloc` add hold any value `junk`.
pub mod Tracked
pub mod Index
pub mod Nt
pub mod Fix
pub mod Pnt
