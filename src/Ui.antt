-- ===== src/Ui.antt =====
-- kernel/src/ui: the compositor's rectangles and its queue of damage.
pub mod Rect
pub mod Damage
